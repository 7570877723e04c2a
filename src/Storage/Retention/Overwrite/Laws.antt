-- ===== src/Storage/Retention/Overwrite/Laws.antt =====
-- What is left on the disk of a file that was deleted securely.
use digital_ghost.Prelude.{
  ℕ, zero, suc, ◌+◌, ◌-◌, ◌≤◌, min, ◌≡◌, refl, sym, ap, ap₂, ◌∙◌, Text, Bool, true, false, [], ◌∷◌,
  ◌++◌, arith, ltb, length, drop, replicate, length-append, length-replicate, take-append,
  append_assoc, append-nil,
}
use digital_ghost.Storage.Retention.Overwrite.{
  write_at, DeleteEnv, overwrite_pass, fill, random_pass, then_random, then_ones,
  secure_delete_file,
}

suc_add : (m n : ℕ) → suc (m + n) ≡ suc m + n
suc_add m n = omega arith

replicate-add : (m n b : ℕ) → replicate m b ++ replicate n b ≡ replicate (m + n) b
replicate-add zero n b = ap (λ k. replicate k b) (omega arith)
replicate-add (suc m) n b =
    ap (λ l. b ∷ l) (replicate-add m n b) ∙ ap (λ k. replicate k b) (suc_add m n)

length-drop : (n : ℕ) (xs : Text) → length (drop n xs) ≡ length xs - n
length-drop zero xs = omega arith
length-drop (suc n) [] = omega arith
length-drop (suc n) (x ∷ xs) = length-drop n xs ∙ omega arith

drop_past : (a b : Text) (k : ℕ) → drop (length a + k) (a ++ b) ≡ drop k b
drop_past [] b k = ap (λ j. drop j b) (omega arith)
drop_past (x ∷ a) b k =
    ap (λ j. drop j (x ∷ (a ++ b))) (sym (suc_add (length a) k)) ∙ drop_past a b k

write_at-append : (a b c : Text) → write_at (length a) c (a ++ b) ≡ (a ++ c) ++ drop (length c) b
write_at-append a b c =
    ap₂ (λ x y. x ++ (c ++ y)) (take-append a b) (drop_past a b (length c))
    ∙ sym (append_assoc a c (drop (length c) b))

room : (a b : Text) → length (a ++ b) - length a ≡ length b
room a b = omega (arith, length-append a b)

at_end : (a : Text) → ltb (length a) (length (a ++ [])) ≡ false
at_end a = rw (append-nil a) (ground arith)

before_end : (a b : Text) (x : ℕ) → ltb (length a) (length (a ++ (x ∷ b))) ≡ true
before_end a b x = rw (length-append a (x ∷ b)) (ground arith)

-- The length of the next chunk, of the part that is written, and of what is left.
chunk_fits : (m n : ℕ) → 1 ≤ m → 1 ≤ n → (1 ≤ min m n) × (min m n + (n - min m n) ≡ n)
chunk_fits m n h k = (ground arith, ground arith)

chunk_end : (a : Text) (n byte : ℕ) → length a + n ≡ length (a ++ replicate n byte)
chunk_end a n byte =
    sym (length-append a (replicate n byte) ∙ ap (λ k. length a + k) (length-replicate n byte))

left_after : (n byte : ℕ) (b : Text) → length (drop (length (replicate n byte)) b) ≡ length b - n
left_after n byte b =
    length-drop (length (replicate n byte)) b ∙ ap (λ k. length b - k) (length-replicate n byte)

filled :
    (a b : Text) (n byte : ℕ)
    → n + (length b - n) ≡ length b
    → (a ++ replicate n byte) ++ replicate (length (drop (length (replicate n byte)) b)) byte
      ≡ a ++ replicate (length b) byte
filled a b n byte h =
    append_assoc a (replicate n byte) _
    ∙ ap (λ r. a ++ r)
        (replicate-add n (length (drop (length (replicate n byte)) b)) byte
          ∙ ap (λ k. replicate k byte) (ap (λ k. n + k) (left_after n byte b) ∙ h))

-- A pass that works leaves nothing but its byte.
pass_fills :
    (works : ℕ → Bool) (k m byte : ℕ) (a b : Text)
    → ((o : ℕ) → works o ≡ true)
    → 1 ≤ m
    → length b ≤ k
    → overwrite_pass works (fill byte) k m (length a) (a ++ b)
      ≡ (a ++ replicate (length b) byte, true)
unfolding overwrite_pass
pass_fills works zero m byte a [] w hm h = refl
pass_fills works zero m byte a (x ∷ b) w hm h = absurd (omega arith)
pass_fills works (suc k) m byte a [] w hm h = rw (overwrite_pass, at_end a) refl
pass_fills works (suc k) m byte a (x ∷ b) w hm h =
    let n = min m (length (x ∷ b)) in
    let c = replicate n byte in
    let (some_byte, whole) = chunk_fits m (length (x ∷ b)) hm (omega arith) in
    let next =
      ap₂ (λ o g. overwrite_pass works (fill byte) k m o g) (chunk_end a n byte)
        (write_at-append a (x ∷ b) c) in
    let rest =
      pass_fills works k m byte (a ++ c) (drop (length c) (x ∷ b)) w hm
        (omega (arith, left_after n byte (x ∷ b), some_byte, h)) in
    rw (overwrite_pass, before_end a b x, w (length a), room a (x ∷ b))
      (next ∙ rest ∙ ap (λ t. (t, true)) (filled a (x ∷ b) n byte whole))

chunk_size : (n : ℕ) → 1 ≤ n → 1 ≤ min 4096 n
chunk_size n h = ground arith

whole_pass :
    (works : ℕ → Bool) (byte x : ℕ) (f : Text)
    → ((o : ℕ) → works o ≡ true)
    → overwrite_pass works (fill byte) (length (x ∷ f)) (min 4096 (length (x ∷ f))) 0 (x ∷ f)
      ≡ (replicate (length (x ∷ f)) byte, true)
whole_pass works byte x f w =
    pass_fills works (length (x ∷ f)) (min 4096 (length (x ∷ f))) byte [] (x ∷ f) w
      (chunk_size (length (x ∷ f)) (omega arith)) (omega arith)

-- After the passes of zeros and of ones only ones are left.
ones_left :
    (env : DeleteEnv) (x : ℕ) (f : Text)
    → env.opened ≡ true
    → ((o : ℕ) → env.write_works 0 o ≡ true)
    → ((o : ℕ) → env.write_works 1 o ≡ true)
    → secure_delete_file env (x ∷ f) ≡ random_pass env (replicate (length (x ∷ f)) 255)
unfolding secure_delete_file
ones_left env x f o w0 w1 =
    simp (secure_delete_file, o)
      (ap (then_ones env) (whole_pass (env.write_works 0) 0 x f w0)
        ∙ ap (then_random env) (whole_pass (env.write_works 1) 255 0 (replicate (length f) 0) w1)
        ∙ ap (λ n. random_pass env (replicate (suc n) 255)) (length-replicate (length f) 0))

-- If a file opens and the writes of its passes of zeros and ones work, what a secure deletion
-- leaves on the disk, and whether it returns an error, depends on the length of the file and not
-- on its content, whatever the random pass and the removal do.
pub secure_delete_file-forgets :
    (env : DeleteEnv) (f g : Text)
    → env.opened ≡ true
    → ((o : ℕ) → env.write_works 0 o ≡ true)
    → ((o : ℕ) → env.write_works 1 o ≡ true)
    → length f ≡ length g
    → secure_delete_file env f ≡ secure_delete_file env g
unfolding secure_delete_file
secure_delete_file-forgets env [] [] o w0 w1 h = refl
secure_delete_file-forgets env [] (x ∷ g) o w0 w1 h = absurd (omega arith)
secure_delete_file-forgets env (x ∷ f) [] o w0 w1 h = absurd (omega arith)
secure_delete_file-forgets env (x ∷ f) (y ∷ g) o w0 w1 h =
    ones_left env x f o w0 w1
    ∙ ap (λ n. random_pass env (replicate n 255)) h
    ∙ sym (ones_left env y g o w0 w1)
