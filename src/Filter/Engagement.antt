-- ===== src/Filter/Engagement.antt =====
-- internal/filter/engagement.go: the engagement score. `F` is the type of the floats.
use digital_ghost.Prelude.{ℕ, ℤ, exceeds, Bool, ◌&&◌, if◌then◌else◌, not}
use digital_ghost.Config.{Floats}
use digital_ghost.Filter.Classifier.{
  ContentClass, unknown, work_document, work_code, work_research, communication, system_ui,
  entertainment, social,
}

-- The operations of float64 and of package math that the score uses, and the literal n / 100.
pub record FloatMath (F : Type 0) : Type 0 where
  pub compare : Floats F
  pub add : F → F → F
  pub mul : F → F → F
  pub div : F → F → F
  pub log : F → F
  pub log1p : F → F
  pub of_int : ℤ → F
  pub hundredths : ℕ → F

pub record EngagementSignals (F : Type 0) : Type 0 where
  pub dwell_seconds : F
  pub typed_within_seconds : F
  pub scrolled_within_seconds : F
  pub clicked_within_seconds : F
  pub content_class : ContentClass
  pub view_count : ℤ

module _ {F : Type 0} (M : FloatMath F) where
  abbrev pub literal : ℕ → F
  literal n = M.compare.tenths n

  abbrev pub lt : F → F → Bool
  lt a b = M.compare.lt a b

  unfoldable pub dwell_weight : F → F
  dwell_weight seconds =
      let w = M.div (M.log1p seconds) (M.log1p (literal 300)) in
      if lt seconds (literal 10)
      then literal 1
      else if lt (literal 10) w
      then literal 10
      else if lt w (literal 1)
      then literal 1
      else w

  -- Within the last ten seconds, and at all.
  abbrev pub is_recent : F → Bool
  is_recent s = lt (literal 0) s && M.compare.le s (literal 100)

  unfoldable pub interaction_weight : EngagementSignals F → F
  interaction_weight s =
      if is_recent s.typed_within_seconds
      then literal 30
      else if is_recent s.scrolled_within_seconds
      then literal 20
      else if is_recent s.clicked_within_seconds
      then literal 15
      else literal 10

  unfoldable pub content_class_weight : ContentClass → F
  content_class_weight unknown = literal 5
  content_class_weight work_document = literal 10
  content_class_weight work_code = literal 10
  content_class_weight work_research = literal 9
  content_class_weight communication = literal 7
  content_class_weight system_ui = literal 2
  content_class_weight entertainment = literal 1
  content_class_weight social = M.hundredths 15

  unfoldable pub view_count_boost : ℤ → F
  view_count_boost view_count =
      let boost = M.add (literal 10) (M.log (M.of_int view_count)) in
      if not (exceeds view_count 1)
      then literal 10
      else if lt (literal 20) boost
      then literal 20
      else boost

  unfoldable pub engagement_score : EngagementSignals F → F
  engagement_score s =
      M.mul
        (M.mul (M.mul (dwell_weight s.dwell_seconds) (interaction_weight s))
          (content_class_weight s.content_class))
        (view_count_boost s.view_count)
