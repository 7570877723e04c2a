-- ===== src/Storage/Retention/Overwrite.antt =====
-- internal/storage/retention.go: secureDeleteFile on a regular file, whose bytes are overwritten three
-- times before it is removed.
pub mod Laws
use digital_ghost.Prelude.{
  ℕ, zero, suc, ◌+◌, ◌-◌, ◌≤◌, ◌<◌, min, ◌≡◌, refl, sym, ap, ap₂, ◌∙◌, Text, Bool, true, false,
  List, [], ◌∷◌, ◌++◌, Option, none, some, arith, ltb, not, length, take, drop, replicate,
  length-append, length-replicate, take-append, drop-append_of, append_assoc, append-nil,
  if◌then◌else◌, Bool-cases, is_empty,
}

-- f.Write(bytes) at an offset inside the file.
abbrev pub write_at : ℕ → Text → Text → Text
write_at off bytes f = take off f ++ (bytes ++ drop (off + length bytes) f)

-- What the system does: whether the file opens, which write of which pass works (by its offset), the
-- random bytes for an offset and a length, if there are any, and whether the removal works.
pub record DeleteEnv : Type 0 where
  pub opened : Bool
  pub write_works : (pass offset : ℕ) → Bool
  pub urandom : Option (ℕ → ℕ → Text)
  pub removed : Bool

-- The loop of a pass with chunks of at most `m` bytes, and whether all its writes worked. A chunk has at
-- least one byte, so that the size of the file is fuel enough.
unfoldable pub overwrite_pass :
    (works : ℕ → Bool) (source : ℕ → ℕ → Text) (fuel m written : ℕ) → Text → Text × Bool
overwrite_pass works source zero m written f = (f, true)
overwrite_pass works source (suc k) m written f =
    let n = min m (length f - written) in
    let rest =
      overwrite_pass works source k m (written + n) (write_at written (source written n) f) in
    if not (ltb written (length f)) then (f, true) else if works written then rest else (f, false)

abbrev pub fill : ℕ → ℕ → ℕ → Text
fill byte offset n = replicate n byte

-- What is on the disk at the end, and whether the call returns no error.
abbrev pub random_pass : DeleteEnv → Text → Text × Bool
random_pass env f = elim env.urandom [
  | none ↦ (f, env.removed)
  | some source ↦ ((overwrite_pass (env.write_works 2) source (length f) 4096 0 f).0, env.removed)
]

-- The passes of ones and of random bytes, after a pass that worked or did not.
abbrev pub then_random : DeleteEnv → Text × Bool → Text × Bool
then_random env (f, false) = (f, false)
then_random env (f, true) = random_pass env f

abbrev pub then_ones : DeleteEnv → Text × Bool → Text × Bool
then_ones env (f, false) = (f, false)
then_ones env (f, true) =
    then_random env
      (overwrite_pass (env.write_works 1) (fill 255) (length f) (min 4096 (length f)) 0 f)

unfoldable pub secure_delete_file : DeleteEnv → Text → Text × Bool
secure_delete_file env f =
    if is_empty f
    then (f, env.removed)
    else if not env.opened
    then (f, false)
    else then_ones env
        (overwrite_pass (env.write_works 0) (fill 0) (length f) (min 4096 (length f)) 0 f)
