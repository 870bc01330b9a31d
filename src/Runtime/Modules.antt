-- ===== src/Runtime/Modules.antt =====
-- src/runtime/module.rs: how the script runtime loads a module. Specifiers, files, and the parser and
-- printer of scripts are libraries.
use electrum.Prelude.{
  if◌then◌else◌, Option-cases, String, ◌≡◌, refl, sym, ap, ◌∙◌, subst, ◌⊎◌, inl, inr, Bool, true,
  false, Option, none, some, List, [], ◌∷◌, arith,
}

-- `MediaType`, as far as it is told apart.
pub data MediaType : Type 0 where
  java_script mjs cjs jsx type_script mts cts dts dmts dcts tsx json other_media : MediaType

pub data ModuleType : Type 0 where
  java_script_module json_module : ModuleType

pub record ModuleSource : Type 0 where
  pub code : String
  pub module_type : ModuleType
  pub module_url_specified : String
  pub module_url_found : String

pub data LoadError : Type 0 where
  only_file_urls : LoadError
  unknown_extension : String → LoadError
  cannot_read : String → LoadError
  cannot_parse cannot_transpile : LoadError

pub data Loaded : Type 0 where
  loaded : ModuleSource → Loaded
  load_failed : LoadError → Loaded

-- What the libraries answer.
pub record Scripts : Type 1 where
  pub Parsed : Type 0
  pub to_file_path : String → Option String
  pub media_type_from : String → MediaType
  pub read_to_string : String → Option String
  pub parse_module : String → MediaType → String → Option Parsed
  pub transpile : Parsed → Option String

-- The kind of a module, and whether it has to be transpiled.
unfoldable pub kind_of : MediaType → Option (ModuleType × Bool)
kind_of java_script = some (java_script_module, false)
kind_of mjs = some (java_script_module, false)
kind_of cjs = some (java_script_module, false)
kind_of jsx = some (java_script_module, true)
kind_of type_script = some (java_script_module, true)
kind_of mts = some (java_script_module, true)
kind_of cts = some (java_script_module, true)
kind_of dts = some (java_script_module, true)
kind_of dmts = some (java_script_module, true)
kind_of dcts = some (java_script_module, true)
kind_of tsx = some (java_script_module, true)
kind_of json = some (json_module, false)
kind_of other_media = none

-- How the media types are told apart.
abbrev pub is_json : MediaType → Bool
is_json json = true
is_json _ = false

abbrev pub is_plain_script : MediaType → Bool
is_plain_script java_script = true
is_plain_script mjs = true
is_plain_script cjs = true
is_plain_script _ = false

abbrev pub needs_transpiling : MediaType → Bool
needs_transpiling java_script = false
needs_transpiling mjs = false
needs_transpiling cjs = false
needs_transpiling json = false
needs_transpiling other_media = false
needs_transpiling _ = true

abbrev Classified : MediaType → Option (ModuleType × Bool) → Type 0
Classified media none = Unit
Classified media (some (kind, transpiles)) =
    ((is_json media ≡ true) × (kind ≡ json_module) × (transpiles ≡ false))
    ⊎ ((is_plain_script media ≡ true) × (kind ≡ java_script_module) × (transpiles ≡ false))
    ⊎ ((needs_transpiling media ≡ true) × (kind ≡ java_script_module) × (transpiles ≡ true))

kind_of-Classified : (media : MediaType) → Classified media (kind_of media)
unfolding kind_of
kind_of-Classified java_script = inr (inl (refl, refl, refl))
kind_of-Classified mjs = inr (inl (refl, refl, refl))
kind_of-Classified cjs = inr (inl (refl, refl, refl))
kind_of-Classified jsx = inr (inr (refl, refl, refl))
kind_of-Classified type_script = inr (inr (refl, refl, refl))
kind_of-Classified mts = inr (inr (refl, refl, refl))
kind_of-Classified cts = inr (inr (refl, refl, refl))
kind_of-Classified dts = inr (inr (refl, refl, refl))
kind_of-Classified dmts = inr (inr (refl, refl, refl))
kind_of-Classified dcts = inr (inr (refl, refl, refl))
kind_of-Classified tsx = inr (inr (refl, refl, refl))
kind_of-Classified json = inl (refl, refl, refl)
kind_of-Classified other_media = tt

module _ (k : Scripts) where
  abbrev pub source_of : String → ModuleType → String → Loaded
  source_of specifier kind text = loaded (record {
    code = text;
    module_type = kind;
    module_url_specified = specifier;
    module_url_found = specifier;
  })

  unfoldable pub transpiled : String → MediaType → ModuleType → String → Loaded
  transpiled specifier media kind text = elim (k.parse_module specifier media text) [
    | none ↦ load_failed cannot_parse
    | some parsed ↦ elim (k.transpile parsed) [
      | none ↦ load_failed cannot_transpile
      | some js ↦ source_of specifier kind js
    ]
  ]

  -- `TypescriptModuleLoader::load`, with the files that it reads.
  unfoldable pub load : String → List String × Loaded
  load specifier = elim (k.to_file_path specifier) [
    | none ↦ ([], load_failed only_file_urls)
    | some path ↦ elim (kind_of (k.media_type_from path)) [
      | none ↦ ([], load_failed (unknown_extension path))
      | some kind ↦ elim (k.read_to_string path) [
        | none ↦ (path ∷ [], load_failed (cannot_read path))
        | some text ↦ (
          path ∷ [],
          if kind.1
              then transpiled specifier (k.media_type_from path) kind.0 text
              else source_of specifier kind.0 text,
        )
      ]
    ]
  ]

  -- What a module of a media type is: the text of its file, as JSON or as a script, or what became
  -- of the text when it was parsed as that type and transpiled.
  abbrev pub ComesFrom : String → MediaType → String → ModuleSource → Type 0
  ComesFrom specifier media text source =
      ((is_json media ≡ true) × (source.module_type ≡ json_module) × (source.code ≡ text))
      ⊎ ((is_plain_script media ≡ true)
          × (source.module_type ≡ java_script_module)
          × (source.code ≡ text))
      ⊎ ((needs_transpiling media ≡ true)
          × (source.module_type ≡ java_script_module)
          × ((parsed : k.Parsed) × (k.parse_module specifier media text ≡ some parsed)
              × (k.transpile parsed ≡ some source.code)))

  not_failed : (e : LoadError) (source : ModuleSource) → load_failed e ≡ loaded source → ⊥
  not_failed e source p = ground arith

  source_of-code :
      (specifier : String) (kind : ModuleType) (text : String) (source : ModuleSource)
      → source_of specifier kind text ≡ loaded source
      → (source.module_url_found ≡ specifier) × (source.module_type ≡ kind) × (source.code ≡ text)
  source_of-code specifier kind text source h = subst (λ r. Described r) h (refl, refl, refl)
    where
      Described : Loaded → Type 0
      Described (load_failed e) = Unit {0}
      Described (loaded s) =
          (s.module_url_found ≡ specifier) × (s.module_type ≡ kind) × (s.code ≡ text)

  transpiled-code :
      (specifier : String) (media : MediaType) (kind : ModuleType) (text : String)
      (source : ModuleSource)
      → transpiled specifier media kind text ≡ loaded source
      → (source.module_url_found ≡ specifier)
        × (source.module_type ≡ kind)
        × ((parsed : k.Parsed) × (k.parse_module specifier media text ≡ some parsed)
            × (k.transpile parsed ≡ some source.code))
  unfolding transpiled
  transpiled-code specifier media kind text source h =
      elim (Option-cases (k.parse_module specifier media text)) [
        | inl e ↦ absurd (not_failed cannot_parse source (rw (transpiled, e) at h))
        | inr (parsed, e) ↦ elim (Option-cases (k.transpile parsed)) [
          | inl f ↦ absurd (not_failed cannot_transpile source (rw (transpiled, e, f) at h))
          | inr (js, f) ↦
              let is = source_of-code specifier kind js source (rw (transpiled, e, f) at h) in
              (is.0, is.1, (parsed, e, f ∙ ap some (sym is.2)))
        ]
      ]

  -- The two ways in which the text of a file becomes a module.
  described :
      (specifier : String) (media : MediaType) (kind : ModuleType) (transpiles : Bool)
      (text : String) (source : ModuleSource)
      → Classified media (some (kind, transpiles))
      → (if transpiles then transpiled specifier media kind text else source_of specifier kind text)
        ≡ loaded source
      → (source.module_url_found ≡ specifier) × ComesFrom specifier media text source
  described specifier media kind transpiles text source (inl (m, c, t)) h =
      let (url, is, code) = source_of-code specifier kind text source (rw t at h) in
      (url, inl (m, is ∙ c, code))
  described specifier media kind transpiles text source (inr (inl (m, c, t))) h =
      let (url, is, code) = source_of-code specifier kind text source (rw t at h) in
      (url, inr (inl (m, is ∙ c, code)))
  described specifier media kind transpiles text source (inr (inr (m, c, t))) h =
      let (url, is, code) = transpiled-code specifier media kind text source (rw t at h) in
      (url, inr (inr (m, is ∙ c, code)))

  -- A module that is loaded comes from the one file that was read, the file of its specifier, and its
  -- type and text are those of the file's media type: JSON and plain scripts have the text of the
  -- file, the other scripts what became of it when it was parsed and transpiled. So nothing of
  -- another media type is loaded.
  pub load-kind_of :
      (specifier : String) (source : ModuleSource)
      → (load specifier).1 ≡ loaded source
      → (path text : String) × ((load specifier).0 ≡ path ∷ [])
        × (k.to_file_path specifier ≡ some path)
        × (k.read_to_string path ≡ some text)
        × (source.module_url_found ≡ specifier)
        × ComesFrom specifier (k.media_type_from path) text source
  unfolding load
  load-kind_of specifier source h = elim (Option-cases (k.to_file_path specifier)) [
    | inl e ↦ absurd (not_failed only_file_urls source (rw (load, e) at h))
    | inr (path, e) ↦ elim (Option-cases (kind_of (k.media_type_from path))) [
      | inl f ↦ absurd (not_failed (unknown_extension path) source (rw (load, e, f) at h))
      | inr ((kind, transpiles), f) ↦ elim (Option-cases (k.read_to_string path)) [
        | inl g ↦ absurd (not_failed (cannot_read path) source (rw (load, e, f, g) at h))
        | inr (text, g) ↦
            let media = k.media_type_from path in
            let table = subst (Classified media) f (kind_of-Classified media) in
            let is =
              described specifier media kind transpiles text source table
                (rw (load, e, f, g) at h) in
            (path, text, rw (load, e, f, g) refl, e, g, is.0, is.1)
      ]
    ]
  ]
