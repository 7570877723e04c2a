-- ===== src/Filter/Classifier/Laws.antt =====
-- What internal/filter/classifier.go promises of the class that it assigns.
use digital_ghost.Prelude.{
  ℕ, ◌<◌, ◌≤◌, contains-append, Text, Bool, true, false, [], ◌∷◌, ◌++◌, map, ◌≡◌, refl, ◌↔◌, ◌⊎◌,
  inl, inr, arith, lit, lower_byte, is_ascii, to_lower, contains, Any-any, ◌∙◌, sym, false≢true,
}
use native.Mathlib.Decide.{dec_lt}
use digital_ghost.Filter.Classifier.Tables.{social_domains, work_code_title_keywords}
use digital_ghost.Filter.Classifier.{
  ContentClass, unknown, work_document, work_code, work_research, communication, system_ui,
  entertainment, social, ClassifierInput, any_contains, is_entertainment, is_social, is_work_code,
  is_work_document, is_work_research, is_communication, is_system_ui, classify_lowered, classify,
}

-- The test of a class on the lowered URL, title and process name.
abbrev pub has_words : ContentClass → Text → Text → Text → Bool
has_words entertainment u t p = is_entertainment u t p
has_words social u t p = is_social u t p
has_words work_code u t p = is_work_code u t p
has_words work_document u t p = is_work_document u t p
has_words work_research u t p = is_work_research u t p
has_words communication u t p = is_communication u t p
has_words system_ui u t p = is_system_ui u t p
has_words unknown u t p = true

-- The place of a class in the order of the tests.
abbrev pub rank : ContentClass → ℕ
rank entertainment = 0
rank social = 1
rank work_code = 2
rank work_document = 3
rank work_research = 4
rank communication = 5
rank system_ui = 6
rank unknown = 7

module _ (u t p : Text) where
  abbrev IsFirst : ContentClass → Type 0
  IsFirst k =
      (has_words k u t p ≡ true)
      × ((j : ContentClass) → rank j < rank k → has_words j u t p ≡ false)

  classify-has_words : has_words (classify_lowered u t p) u t p ≡ true
  unfolding classify_lowered
  classify-has_words = ground arith

  none_before :
      (j : ContentClass) → rank j < rank (classify_lowered u t p) → has_words j u t p ≡ false
  unfolding classify_lowered
  none_before entertainment h = ground arith
  none_before social h = ground arith
  none_before _ h = ground arith

  rank_injective : (j k : ContentClass) → rank j ≡ rank k → j ≡ k
  rank_injective j k h = ground arith

  classify_of_first : (k : ContentClass) → IsFirst k → classify_lowered u t p ≡ k
  classify_of_first k (own, others) = elim (dec_lt (rank c) (rank k)) [
    | yes l ↦ absurd (false≢true (sym (others c l) ∙ classify-has_words))
    | no m ↦ elim (dec_lt (rank k) (rank c)) [
      | yes l ↦ absurd (false≢true (sym (none_before k l) ∙ own))
      | no n ↦ rank_injective c k (omega arith)
    ]
  ]
    where
      c : ContentClass
      c = classify_lowered u t p

-- Classify gives a class exactly if the lowered texts have words of that class (any do for the
-- unknown class) and have none of a class that goes before it: entertainment, social, code,
-- document, research, communication, system, unknown.
pub classify_iff :
    (unicode_lower : Text → Text) (w : ClassifierInput) (k : ContentClass)
    → let u = to_lower unicode_lower w.browser_url in
      let t = to_lower unicode_lower w.window_title in
      let p = to_lower unicode_lower w.process_name in
      (classify unicode_lower w ≡ k) ↔ (
        (has_words k u t p ≡ true)
        × ((j : ContentClass) → rank j < rank k → has_words j u t p ≡ false))
unfolding classify
classify_iff unicode_lower w k = (
  λ h. (rw h at (classify-has_words u t p), λ j l. none_before u t p j (rw h l)),
  classify_of_first u t p k,
)
  where
    u : Text
    u = to_lower unicode_lower w.browser_url

    t : Text
    t = to_lower unicode_lower w.window_title

    p : Text
    p = to_lower unicode_lower w.process_name

lower_byte_idem : (c : ℕ) → lower_byte (lower_byte c) ≡ lower_byte c
lower_byte_idem c = ground arith

is_ascii-lower : (s : Text) → is_ascii s ≡ true → is_ascii (map lower_byte s) ≡ true
unfolding is_ascii
is_ascii-lower [] h = refl
is_ascii-lower (c ∷ s) h = ground (arith, is_ascii-lower s)

map-lower_byte : (s : Text) → map lower_byte (map lower_byte s) ≡ map lower_byte s
map-lower_byte [] = refl
map-lower_byte (c ∷ s) = cc (lower_byte_idem c, map-lower_byte s)

to_lower-lower :
    (unicode_lower : Text → Text) (s : Text)
    → is_ascii s ≡ true
    → to_lower unicode_lower (map lower_byte s) ≡ to_lower unicode_lower s
unfolding to_lower
to_lower-lower unicode_lower s h = rw h (rw (is_ascii-lower s h) (map-lower_byte s))

-- The class of a window whose texts are ASCII does not change if their letters are lowered first.
classify-lower :
    (unicode_lower : Text → Text) (w : ClassifierInput)
    → is_ascii w.process_name ≡ true
    → is_ascii w.window_title ≡ true
    → is_ascii w.browser_url ≡ true
    → classify unicode_lower (record {
      process_name = map lower_byte w.process_name;
      window_title = map lower_byte w.window_title;
      browser_url = map lower_byte w.browser_url;
    })
      ≡ classify unicode_lower w
unfolding classify
classify-lower unicode_lower w hp ht hu = cc (
  to_lower-lower unicode_lower w.process_name hp,
  to_lower-lower unicode_lower w.window_title ht,
  to_lower-lower unicode_lower w.browser_url hu,
)

x_com_hit : (a b : Text) → any_contains (a ++ (lit "x.com" ++ b)) social_domains ≡ true
unfolding any_contains social_domains
x_com_hit a b =
    Any-any (λ d. contains (a ++ (lit "x.com" ++ b)) d) social_domains
      (inr (inl (contains-append a (lit "x.com") b)))

dot_c_hit : (a b : Text) → any_contains (a ++ (lit ".c" ++ b)) work_code_title_keywords ≡ true
unfolding any_contains work_code_title_keywords
dot_c_hit a b =
    Any-any (λ d. contains (a ++ (lit ".c" ++ b)) d) work_code_title_keywords
      (inr (inr (inr (inr (inr (inr (inl (contains-append a (lit ".c") b))))))))

social_of_x_com : (a b t p : Text) → is_social (a ++ (lit "x.com" ++ b)) t p ≡ true
unfolding is_social
social_of_x_com a b t p = x_com_hit a b

code_of_dot_c : (a b u p : Text) → is_work_code u (a ++ (lit ".c" ++ b)) p ≡ true
unfolding is_work_code
code_of_dot_c a b u p = ground (arith, dot_c_hit a b)

-- A window whose lowered URL has x.com anywhere in it, in the name of another host too, is put at
-- entertainment or social, whatever else it is.
classify_x_com :
    (unicode_lower : Text → Text) (w : ClassifierInput) (a b : Text)
    → to_lower unicode_lower w.browser_url ≡ a ++ (lit "x.com" ++ b)
    → (classify unicode_lower w ≡ entertainment) ⊎ (classify unicode_lower w ≡ social)
unfolding classify classify_lowered
classify_x_com unicode_lower w a b e = rw e (
    ground (
      arith,
      social_of_x_com a b (to_lower unicode_lower w.window_title)
          (to_lower unicode_lower w.process_name),
    ))

-- A window whose lowered title has .c anywhere in it, in .com too, is put at entertainment,
-- social or code.
classify_dot_c :
    (unicode_lower : Text → Text) (w : ClassifierInput) (a b : Text)
    → to_lower unicode_lower w.window_title ≡ a ++ (lit ".c" ++ b)
    → rank (classify unicode_lower w) ≤ rank work_code
unfolding classify classify_lowered
classify_dot_c unicode_lower w a b e = rw e (
    ground (
      arith,
      code_of_dot_c a b (to_lower unicode_lower w.browser_url)
          (to_lower unicode_lower w.process_name),
    ))
