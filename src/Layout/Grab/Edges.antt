-- ===== src/Layout/Grab/Edges.antt =====
-- src/shell/layout/grab.rs: the two types of edges.
use electrum.Prelude.{find, ok, ◌≡◌, refl, false, ◌&&◌}
use electrum.World.{ResizeEdge}
use electrum.Layout.Grab.{
  XdgEdge, no_edge, top, bottom, left, top_left, bottom_left, right, top_right, bottom_right,
  xdg_edge, top_bit, bottom_bit, left_bit, right_bit, has_bit, from_xdg, to_xdg,
}

-- Every edge of the protocol has its flags, and the flags lead back to it: neither way panics. The
-- flags say on which axes the edge resizes, and no edge lies on both sides of an axis.
pub to_xdg-from_xdg :
    (x : XdgEdge)
    → (e : ResizeEdge) × (from_xdg x ≡ ok e)
      × (to_xdg e ≡ ok x)
      × (has_bit e top_bit && has_bit e bottom_bit ≡ false)
      × (has_bit e left_bit && has_bit e right_bit ≡ false)
unfolding from_xdg to_xdg xdg_edge find
to_xdg-from_xdg no_edge = (0, refl, refl, refl, refl)
to_xdg-from_xdg top = (1, refl, refl, refl, refl)
to_xdg-from_xdg bottom = (2, refl, refl, refl, refl)
to_xdg-from_xdg left = (4, refl, refl, refl, refl)
to_xdg-from_xdg top_left = (5, refl, refl, refl, refl)
to_xdg-from_xdg bottom_left = (6, refl, refl, refl, refl)
to_xdg-from_xdg right = (8, refl, refl, refl, refl)
to_xdg-from_xdg top_right = (9, refl, refl, refl, refl)
to_xdg-from_xdg bottom_right = (10, refl, refl, refl, refl)
