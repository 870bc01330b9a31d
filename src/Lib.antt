-- ===== src/Lib.antt =====
-- Electrum: a verification library for the compositor.
--
-- The program. Electrum is a Wayland compositor over smithay. Clients' requests reach handlers of
-- the state (src/state), which act on the shell (src/shell): a list of workspaces, each with
-- smithay's space of windows and outputs, a table of fullscreen windows and a layout of floating
-- windows. A seat's user data holds its focus stacks, its focused surface, its popup grab, its
-- devices and its active output. Once per iteration the event loop (src/main.rs) refreshes the
-- shell and the focus. A few requests are sent on to a script runtime (src/runtime) as messages.
--
-- Reading guide: file, then the code that it models.
-- - Prelude: shared names, Boolean tests, lists, hash maps with string keys as association lists,
--   `Outcome` (a value or a Rust panic), and integers.
-- - Smithay: the interface `Smithay` to the libraries that are not in the repository (smithay and
--   indexmap): types, operations, and what their documentation says of them as named laws. Handles
--   (windows, surfaces, outputs, seats) are numbers, since only their identity is used.
--   Smithay/Geometry: points, sizes and rectangles over 32-bit integers with wrap-around.
-- - World: what handlers ask of their surroundings (`Env`, which does not change while a handler
--   runs), and the state shared through handles (`World`): the user data of seats and windows, the
--   pending states of toplevels, the serial counter, and the calls that went out, latest first
--   (src/runtime/messages.rs for the messages).
-- - Id: src/id.rs. Id/Search has the search for a free id, Id/Alloc the allocations.
-- - Workspace: src/shell/workspace.rs. Workspace/Fullscreen, Workspace/Refresh and
--   Workspace/Coherence prove.
-- - Focus: the stacks and the focused surface of src/shell/focus.rs. Focus/Stack, Focus/Data and
--   Focus/Recent prove.
-- - Shell: src/shell/mod.rs and `Shell::set_focus`. Shell/Outputs and Shell/SetFocus prove; the
--   latter's Refinement has the abstract view of the focus, lists of windows. Shell/Common:
--   `update_active` and `CommonState` of src/shell/focus.rs; its children prove.
-- - Layout and its children: src/shell/layout/mod.rs (where a floating window is placed, its size,
--   what is remembered of it). Layout/Grab: src/shell/layout/grab.rs (interactive resizing).
-- - Shell/Grab and its children: src/shell/grab.rs (moving a window with the pointer). `ungrab`
--   leaves a task for the idle event loop; the tasks are a list that `dispatch_idle` runs.
-- - Shell/Mapping: pending windows and layers, and the refresh of the shell, src/shell/mod.rs.
-- - State/Output: src/state/output.rs. State/Compositor: src/state/compositor.rs. State/Requests:
--   src/state/xdg_shell.rs and src/state/layer_shell.rs. State/Popups: the popup grab of
--   src/state/xdg_shell.rs. State/DataDevice: src/state/data_device.rs. State/EventLoop: the
--   callback of the loop in src/main.rs. State/Clients: the requests that the display's source of
--   src/main.rs serves. State/Start: src/state/mod.rs, the state at the start.
-- - Input: src/input/mod.rs. Input/Seats: a new seat. Input/Devices: the devices of a seat.
--   Input/Under: what lies below the pointer. Input/Events: `process_input_event`. The pointer's
--   own state is smithay's: a motion or a button is a call to it, and the callbacks of a grab that
--   the pointer then runs are in Shell/Grab, apart from `process_input_event`.
-- - Runtime: the two channels between the compositor and the script runtime, src/runtime/mod.rs
--   and src/main.rs; Runtime/Posting, Runtime/Fatal and
--   Runtime/Flight prove. A history of turns is an
--   interleaving of the two callbacks. Runtime/Modules: src/runtime/module.rs.
-- - Backend: the frames of src/backend/winit/state.rs and src/backend/renderer/mod.rs. A frame
--   whose buffer cannot be bound ends early. Backend/Render: the calls that draw one window; a
--   call may fail. Backend/Winit: src/backend/winit/mod.rs and src/backend/mod.rs, with
--   the frames of Backend and Backend/Render composed.
--   Backend/Winit/Loop: `event_loop.run` of src/main.rs over rows of events of the window. Each
--   event finds its own `Env`.
-- - ImageViewer: src/bin/image.rs, a client for tests. ImageViewer/Draw and ImageViewer/Pixels
--   prove.
-- - Tests: a concrete `Smithay` (Tests/Desktop), runs of the code, and each result at a concrete
--   input.
--
-- How state and errors are modelled. A method takes the record that it is called on and the shared
-- state and returns them anew; a method that may panic returns an `Outcome`. A write through a
-- `RefCell` in user data is a write to the slot. `insert_if_missing` is smithay's.
--
-- Bounds and fuel. The id search takes one more round than there are ids in use, which Id/Search
-- shows to be enough. A `usize` has 64 bits; `id += 1` and the arithmetic on `i32` wrap as in the
-- release profile. Other loops go over lists.
--
-- Not modelled: what a single drawing call draws; how the sources of src/main.rs are set up;
-- within the loop of Backend/Winit/Loop, idle tasks and the requests that State/Clients does not
-- name; the logger; the worker of the script runtime; and everything behind the interface
-- `Smithay`. Arithmetic on `f64` enters as operations of that interface. src/main_old.rs is named
-- by no build target.
pub mod Prelude
pub mod Id
pub mod Smithay
pub mod World
pub mod Layout
pub mod Workspace
pub mod Focus
pub mod Shell
pub mod State
pub mod Input
pub mod Runtime
pub mod Backend
pub mod ImageViewer
pub mod Tests
