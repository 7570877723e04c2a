-- ===== src/Config/Loading.antt =====
-- What a configuration that loads is made of.
use mathlib.Core.Path.{subst}
use digital_ghost.Prelude.{◌≡◌, refl, sym, ap, ◌∙◌, ◌⊎◌, inl, inr, Text, Option, some, Option-cases}
use digital_ghost.Prelude.Result.{ok, err, ok-injective, Result-cases}
use digital_ghost.Config.{
  Floats, Url, Config, ConfigError, ConfigFile, missing, unreadable, present, validate,
  expand_paths, defaults, validated, load_file, load,
}
use digital_ghost.Config.Laws.{IsSafe, checks-IsSafe, IsSafe-checks, validate_iff}

not_ok : {A : Type 0} {x : ConfigError} {a : A} → ¬ (err x ≡ ok a)
not_ok h = cc

module _ {F : Type 0} (floats : Floats F) (parse_url : Text → Option Url)
    (unmarshal : Text → Config F → Option (Config F)) where
  -- The file merged with the defaults, or the defaults where there is no file.
  abbrev pub IsRead : ConfigFile → Config F → Type 0
  IsRead file source =
      (file ≡ missing) × (source ≡ defaults floats)
      ⊎ ((text : Text) × (file ≡ present text) × (unmarshal text (defaults floats) ≡ some source))

  pub record IsSource (file : ConfigFile) (source : Config F) : Type 0 where
    pub from_file : IsRead file source
    pub safe : IsSafe floats parse_url source

  validated-IsSafe :
      (c d : Config F)
      → validated floats parse_url unmarshal c ≡ ok d
      → (c ≡ d) × IsSafe floats parse_url c
  validated-IsSafe c d h = elim (Result-cases (validate floats parse_url c)) [
    | inl (u, q) ↦
        (ok-injective c d refl (simp (validated, q) at h), (validate_iff floats parse_url c).0 q)
    | inr (e, q) ↦ absurd (not_ok (simp (validated, q) at h))
  ]

  load_file-IsSource :
      (file : ConfigFile) (source : Config F)
      → load_file floats parse_url unmarshal file ≡ ok source
      → IsSource file source
  unfolding load_file
  load_file-IsSource missing source h =
      let (q, s) = validated-IsSafe (defaults floats) source h in
      record { from_file = inl (refl, sym q); safe = rw q at s }
  load_file-IsSource unreadable source h = absurd (not_ok h)
  load_file-IsSource (present text) source h =
      elim (Option-cases (unmarshal text (defaults floats))) [
        | inl q ↦ absurd (not_ok (rw (load_file, q) at h))
        | inr (c, q) ↦
            let (e, s) = validated-IsSafe c source (rw (load_file, q) at h) in
            record { from_file = inr (text, refl, q ∙ ap some e); safe = rw e at s }
      ]

  -- A configuration with the fields of the source and its two paths expanded, which is safe itself.
  pub record IsLoaded (expand : Text → Text) (file : ConfigFile) (c : Config F) : Type 0 where
    pub source : Config F
    pub from_file : IsRead file source
    pub safe : IsSafe floats parse_url c
    pub capture : c.capture ≡ source.capture
    pub budget : c.resource_budget ≡ source.resource_budget
    pub inference : c.inference ≡ source.inference
    pub filter : c.semantic_filter ≡ source.semantic_filter
    pub data_dir : c.storage.data_dir ≡ expand source.storage.data_dir
    pub retention : c.storage.retention_days ≡ source.storage.retention_days
    pub max_retention : c.storage.max_retention_days ≡ source.storage.max_retention_days
    pub secure_delete : c.storage.secure_delete ≡ source.storage.secure_delete
    pub level : c.logging.level ≡ source.logging.level
    pub log_file : c.logging.file ≡ expand source.logging.file

  expand_paths-IsSafe :
      (expand : Text → Text) (c : Config F)
      → IsSafe floats parse_url c
      → IsSafe floats parse_url (expand_paths expand c)
  expand_paths-IsSafe expand c s =
      checks-IsSafe floats parse_url (expand_paths expand c) (IsSafe-checks floats parse_url c s)

  expand_paths-IsLoaded :
      (expand : Text → Text) (file : ConfigFile) (source : Config F)
      → IsSource file source
      → IsLoaded expand file (expand_paths expand source)
  expand_paths-IsLoaded expand file source h = record {
    source = source;
    from_file = h.from_file;
    safe = expand_paths-IsSafe expand source h.safe;
    capture = refl;
    budget = refl;
    inference = refl;
    filter = refl;
    data_dir = refl;
    retention = refl;
    max_retention = refl;
    secure_delete = refl;
    level = refl;
    log_file = refl;
  }

  -- A configuration that loads passes every bound of the validation and, but for its two paths,
  -- has the fields of its source, which is the defaults if there is no file, or else what
  -- unmarshalling the file over the defaults gives. The data directory and the log file are those
  -- of the source, expanded.
  pub load-IsLoaded :
      (expand : Text → Text) (file : ConfigFile) (c : Config F)
      → load floats parse_url unmarshal expand file ≡ ok c
      → IsLoaded expand file c
  unfolding load
  load-IsLoaded expand file c h = elim (Result-cases (load_file floats parse_url unmarshal file)) [
    | inl (source, q) ↦
        subst (IsLoaded expand file)
          (ok-injective (expand_paths expand source) c refl (rw (load, q) at h))
          (expand_paths-IsLoaded expand file source (load_file-IsSource file source q))
    | inr (e, q) ↦ absurd (not_ok (rw (load, q) at h))
  ]
