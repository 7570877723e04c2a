-- ===== src/Storage/Retention/Sweep.antt =====
-- What a sweep does to the index and to the files.
use digital_ghost.Prelude.{
  ℕ, suc, ◌≡◌, refl, sym, ap, ◌∙◌, inl, inr, Text, Bool, true, false, List, [], ◌∷◌, Option, none,
  some, arith, any, select, not, All, All-mono, Bool-cases, text_eq, text_eq_refl, text_eq→≡,
  if◌then◌else◌, ◌&&◌, ◌||◌,
}
use digital_ghost.Storage.Time.{Time, is_before}
use digital_ghost.Storage.Hex.{NodeId, parse_node_id, parse_node_id-hex_encode}
use digital_ghost.Storage.Encrypt.{Crypto, IsCrypto}
use digital_ghost.Storage.JsonStore.{
  IndexEntry, FileState, missing, IndexCodec, RemoveEnv, get_file, remove_file, node_path,
}
use digital_ghost.Storage.JsonStore.Index.{has_id, remove_entry}
use digital_ghost.Storage.JsonStore.Index.Laws.{IsIndex, IsCodec, Saves, Holds}
use digital_ghost.Storage.JsonStore.Records.{collect_ids, list_older_than}
use digital_ghost.Storage.JsonStore.Records.Access.{
  delete_record-Deleted, get_file-remove_file_self, get_file-remove_file_ne,
}
use digital_ghost.Storage.VectorStore.{Store, delete, delete_all, evicted}
use digital_ghost.Storage.Retention.{sweep, cutoff, SweepError}

-- The system removes the file and saves the index.
pub record Removes (env : RemoveEnv) : Type 0 where
  pub removed : env.removed ≡ true
  pub saves : Saves env.save

-- No two entries of the index have one ID.
abbrev pub IsUnique : List IndexEntry → Type 0
IsUnique [] = Unit
IsUnique (e ∷ es) = (any (λ x. text_eq e.id x.id) es ≡ false) × IsUnique es

abbrev pub remove_entries : List NodeId → List IndexEntry → List IndexEntry
remove_entries [] es = es
remove_entries (id ∷ ids) es = remove_entries ids (remove_entry id es)

abbrev pub remove_files : List NodeId → List (Text × FileState) → List (Text × FileState)
remove_files [] fs = fs
remove_files (id ∷ ids) fs = remove_files ids (remove_file (node_path id) fs)

abbrev is_removed : List NodeId → IndexEntry → Bool
is_removed ids e = any (λ id. has_id id e) ids

select-select :
    {A : Type 0} (f g : A → Bool) (xs : List A)
    → select f (select g xs) ≡ select (λ x. g x && f x) xs
select-select f g [] = refl
select-select f g (x ∷ xs) = elim (Bool-cases (g x)) [
  | inl e ↦ rw e (rw (select-select f g xs) refl)
  | inr e ↦ rw e (select-select f g xs)
]

select-cong :
    {A : Type 0} (f g : A → Bool) (xs : List A)
    → All (λ x. f x ≡ g x) xs
    → select f xs ≡ select g xs
select-cong f g [] h = refl
select-cong f g (x ∷ xs) (e, h) = rw (e, select-cong f g xs h) refl

select-true : {A : Type 0} (xs : List A) → select (λ x. true) xs ≡ xs
select-true [] = refl
select-true (x ∷ xs) = ap (λ r. x ∷ r) (select-true xs)

All-always : {A : Type 0} (P : A → Type 0) (xs : List A) → ((x : A) → P x) → All P xs
All-always P [] f = tt
All-always P (x ∷ xs) f = (f x, All-always P xs f)

not_or : (a b : Bool) → (not a && not b) ≡ not (a || b)
not_or true b = refl
not_or false b = refl

-- The removals one after the other take out the entries of all the nodes.
remove_entries-select :
    (ids : List NodeId) (es : List IndexEntry)
    → remove_entries ids es ≡ select (λ e. not (is_removed ids e)) es
unfolding remove_entry
remove_entries-select [] es = sym (select-true es)
remove_entries-select (id ∷ ids) es =
    remove_entries-select ids (remove_entry id es)
    ∙ select-select (λ e. not (is_removed ids e)) (λ e. not (has_id id e)) es
    ∙ select-cong _ _ es (All-always _ es (λ e. not_or (has_id id e) (is_removed ids e)))

-- The collected IDs name the entries that pass the test and no others.
is_removed-collect_ids :
    (f : IndexEntry → Bool) (es : List IndexEntry) (e : IndexEntry)
    → IsIndex es
    → is_removed (collect_ids f es) e ≡ any (λ x. f x && text_eq e.id x.id) es
unfolding collect_ids
is_removed-collect_ids f [] e h = refl
is_removed-collect_ids f (x ∷ es) e (hx, h) =
    let parsed : parse_node_id x.id ≡ some hx.node =
      rw hx.hex (parse_node_id-hex_encode hx.node hx.is_node) in
    elim (Bool-cases (f x)) [
      | inl q ↦ rw (q, parsed) (rw (is_removed-collect_ids f es e h, hx.hex) refl)
      | inr q ↦ rw q (is_removed-collect_ids f es e h)
    ]

text_eq_sym : (s t : Text) → text_eq s t ≡ text_eq t s
text_eq_sym s t = elim (Bool-cases (text_eq s t)) [
  | inl e ↦ rw (text_eq→≡ s t e) refl
  | inr e ↦ elim (Bool-cases (text_eq t s)) [
    | inl q ↦ rw (text_eq→≡ t s q) refl
    | inr q ↦ e ∙ sym q
  ]
]

any-and_false :
    (f : IndexEntry → Bool) (id : Text) (es : List IndexEntry)
    → any (λ x. text_eq id x.id) es ≡ false
    → any (λ x. f x && text_eq id x.id) es ≡ false
any-and_false f id [] h = refl
any-and_false f id (x ∷ es) h = ground (arith, any-and_false f id es)

unique_tail :
    (f : IndexEntry → Bool) (x : IndexEntry) (xs ys : List IndexEntry)
    → any (λ y. text_eq x.id y.id) xs ≡ false
    → All (λ e. any (λ y. f y && text_eq e.id y.id) ys ≡ f e) xs
    → All (λ e. (f x && text_eq e.id x.id) || any (λ y. f y && text_eq e.id y.id) ys ≡ f e) xs
unique_tail f x [] ys u h = tt
unique_tail f x (e ∷ xs) ys u (p, h) =
    (ground (arith, text_eq_sym e.id x.id, p), unique_tail f x xs ys (ground arith) h)

-- Where the IDs are unique, an entry passes the test if one with its ID does.
unique_passes :
    (f : IndexEntry → Bool) (es : List IndexEntry)
    → IsUnique es
    → All (λ e. any (λ x. f x && text_eq e.id x.id) es ≡ f e) es
unique_passes f [] u = tt
unique_passes f (x ∷ xs) (u, us) = (
  ground (arith, text_eq_refl x.id, any-and_false f x.id xs u),
  unique_tail f x xs xs u (unique_passes f xs us),
)

-- To remove the nodes of the entries that pass is to keep the entries that do not.
pub remove_entries-collect_ids :
    (f : IndexEntry → Bool) (es : List IndexEntry)
    → IsIndex es
    → IsUnique es
    → remove_entries (collect_ids f es) es ≡ select (λ e. not (f e)) es
remove_entries-collect_ids f es h u =
    remove_entries-select (collect_ids f es) es
    ∙ select-cong _ _ es
        (All-mono es (λ e q. ap not (is_removed-collect_ids f es e h ∙ q)) (unique_passes f es u))

gone :
    (q p : Text) (fs : List (Text × FileState))
    → text_eq q p ≡ true
    → get_file p (remove_file q fs) ≡ missing
gone q p fs e = rw (← text_eq→≡ q p e) (get_file-remove_file_self q fs)

if_missing : (b : Bool) → (if b then missing else missing) ≡ missing
if_missing true = refl
if_missing false = refl

pub get_file-remove_files :
    (p : Text) (ids : List NodeId) (fs : List (Text × FileState))
    → get_file p (remove_files ids fs)
      ≡ (if any (λ id. text_eq (node_path id) p) ids then missing else get_file p fs)
get_file-remove_files p [] fs = refl
get_file-remove_files p (id ∷ ids) fs = elim (Bool-cases (text_eq (node_path id) p)) [
  | inl e ↦
      get_file-remove_files p ids (remove_file (node_path id) fs)
      ∙ rw (e, gone (node_path id) p fs e) (if_missing (any (λ j. text_eq (node_path j) p) ids))
  | inr e ↦
      get_file-remove_files p ids (remove_file (node_path id) fs)
      ∙ rw (e, get_file-remove_file_ne (node_path id) p fs e) refl
]

abbrev pub is_expired : Time → ℕ → IndexEntry → Bool
is_expired now days e = is_before e.timestamp (cutoff now days)

module _ {F : Type 0} (C : Crypto) (K : IndexCodec) (crypto : IsCrypto C) (codec : IsCodec K) where
  -- The nodes are out of the index and the directory, and all else is as it was.
  pub record Removed (ids : List NodeId) (es : List IndexEntry) (s s' : Store F) : Type 0 where
    pub encryptor : s'.encryptor ≡ s.encryptor
    pub holds : Holds C K crypto codec s.encryptor (remove_entries ids es) s'.disk
    pub nodes : s'.disk.nodes ≡ remove_files ids s.disk.nodes

  delete-Removed :
      (env : RemoveEnv) (id : NodeId) (es : List IndexEntry) (s : Store F)
      → Removes env
      → Holds C K crypto codec s.encryptor es s.disk
      → (s' : Store F) × (delete C K env id s ≡ (s', none)) × Removed (id ∷ []) es s s'
  unfolding delete
  delete-Removed env id es s r h =
      let (d', q, out) =
        delete_record-Deleted C K crypto codec s.encryptor env id es s.disk r.saves r.removed h in
      (_, ap (evicted id s) q, record { encryptor = refl; holds = out.holds; nodes = out.nodes })

  Removed-trans :
      (id : NodeId) (ids : List NodeId) (es : List IndexEntry) (s s1 s2 : Store F)
      → Removed (id ∷ []) es s s1
      → Removed ids (remove_entry id es) s1 s2
      → Removed (id ∷ ids) es s s2
  Removed-trans id ids es s s1 s2 one rest = record {
    encryptor = rest.encryptor ∙ one.encryptor;
    holds = rw one.encryptor at rest.holds;
    nodes = rest.nodes ∙ ap (remove_files ids) one.nodes;
  }

  pub delete_all-Removed :
      (envs : ℕ → RemoveEnv) (n : ℕ) (ids : List NodeId) (failed : ℕ) (es : List IndexEntry)
      (s : Store F)
      → ((k : ℕ) → Removes (envs k))
      → Holds C K crypto codec s.encryptor es s.disk
      → (s' : Store F) × (delete_all C K envs n ids failed s ≡ (s', failed)) × Removed ids es s s'
  unfolding delete_all
  delete_all-Removed envs n [] failed es s r h =
      (s, refl, record { encryptor = refl; holds = h; nodes = refl })
  delete_all-Removed envs n (id ∷ ids) failed es s r h =
      let (s1, q, one) = delete-Removed (envs n) id es s (r n) h in
      let (s2, q2, rest) =
        delete_all-Removed envs (suc n) ids failed (remove_entry id es) s1 r
          (rw one.encryptor one.holds) in
      (s2, rw q q2, Removed-trans id ids es s s1 s2 one rest)

  -- The outcome of a sweep: no error, the entries that are not expired, in order, the files of the
  -- expired nodes gone, and every other file as it was.
  pub record Swept (now : Time) (days : ℕ) (es : List IndexEntry) (s : Store F)
      (r : Store F × Option SweepError) : Type 0 where
    pub no_error : r.1 ≡ none
    pub encryptor : r.0.encryptor ≡ s.encryptor
    pub holds :
        Holds C K crypto codec s.encryptor (select (λ e. not (is_expired now days e)) es) r.0.disk
    pub files :
        (p : Text)
        → get_file p r.0.disk.nodes ≡ (
            if any (λ id. text_eq (node_path id) p) (collect_ids (is_expired now days) es)
            then missing
            else get_file p s.disk.nodes)

  Removed-Swept :
      (now : Time) (days : ℕ) (es : List IndexEntry) (s s' : Store F)
      → IsUnique es
      → IsIndex es
      → Removed (collect_ids (is_expired now days) es) es s s'
      → Swept now days es s (s', none)
  Removed-Swept now days es s s' u v out = record {
    no_error = refl;
    encryptor = out.encryptor;
    holds = rw (remove_entries-collect_ids (is_expired now days) es v u) at out.holds;
    files = λ p.
        rw out.nodes (get_file-remove_files p (collect_ids (is_expired now days) es) s.disk.nodes);
  }

  -- If HMAC, AES-GCM and the index codec behave as documented, the index loads with valid entries
  -- of different nodes, and all removals and saves work, a sweep returns no error, leaves in the
  -- index exactly the entries that are not older than the retention period, in order, removes the
  -- files of the others, and leaves every other file alone.
  pub sweep-Swept :
      (envs : ℕ → RemoveEnv) (now : Time) (days : ℕ) (es : List IndexEntry) (s : Store F)
      → ((k : ℕ) → Removes (envs k))
      → Holds C K crypto codec s.encryptor es s.disk
      → IsUnique es
      → Swept now days es s (sweep C K envs now days s)
  unfolding sweep list_older_than
  sweep-Swept envs now days es s r h u =
      let ids = collect_ids (is_expired now days) es in
      let (s', q, out) = delete_all-Removed envs 0 ids 0 es s r h in
      rw (sweep, list_older_than, h.loads, q) (Removed-Swept now days es s s' u h.valid out)
