-- ===== src/Filter/Classifier.antt =====
-- internal/filter/classifier.go: the content class of a window, by the words in its URL, its title
-- and its process name.
pub mod Tables
pub mod Laws
pub mod Tests
use digital_ghost.Prelude.{
  Text, Bool, true, false, ◌||◌, List, [], ◌∷◌, ◌++◌, lit, text_eq, contains, to_lower, any,
  if◌then◌else◌,
}
use digital_ghost.Filter.Classifier.Tables.{
  entertainment_url_domains, entertainment_procs, entertainment_title_keywords, social_domains,
  work_code_procs, work_code_exact_procs, work_code_domains, work_code_title_keywords,
  work_document_procs, work_document_domains, work_document_title_keywords, work_research_domains,
  communication_procs, communication_domains, system_ui_procs, system_ui_title_signals,
}

-- internal/filter/engagement.go: ContentClass
pub data ContentClass : Type 0 where
  unknown work_document work_code work_research communication system_ui entertainment social :
      ContentClass

pub record ClassifierInput : Type 0 where
  pub process_name : Text
  pub window_title : Text
  pub browser_url : Text

-- for _, w := range words { if strings.Contains(s, w) { return true } }
unfoldable pub any_contains : Text → List Text → Bool
any_contains s words = any (λ w. contains s w) words

-- for _, p := range names { if proc == p || proc == p+".exe" { return true } }
unfoldable pub any_exact : Text → List Text → Bool
any_exact proc names = any (λ p. text_eq proc p || text_eq proc (p ++ lit ".exe")) names

unfoldable pub is_entertainment : Text → Text → Text → Bool
is_entertainment url title proc =
    any_contains url entertainment_url_domains
    || (any_contains proc entertainment_procs || (any_contains title entertainment_title_keywords))

unfoldable pub is_social : Text → Text → Text → Bool
is_social url title proc = any_contains url social_domains

unfoldable pub is_work_code : Text → Text → Text → Bool
is_work_code url title proc =
    any_contains proc work_code_procs
    || (any_exact proc work_code_exact_procs
        || (any_contains url work_code_domains || (any_contains title work_code_title_keywords)))

unfoldable pub is_work_document : Text → Text → Text → Bool
is_work_document url title proc =
    any_contains proc work_document_procs
    || (any_contains url work_document_domains || (any_contains title work_document_title_keywords))

unfoldable pub is_work_research : Text → Text → Text → Bool
is_work_research url title proc = any_contains url work_research_domains

unfoldable pub is_communication : Text → Text → Text → Bool
is_communication url title proc =
    any_contains proc communication_procs || (any_contains url communication_domains)

unfoldable pub is_system_ui : Text → Text → Text → Bool
is_system_ui url title proc =
    any_contains proc system_ui_procs || (any_contains title system_ui_title_signals)

-- The tests of `Classify` on the lowered texts.
unfoldable pub classify_lowered : Text → Text → Text → ContentClass
classify_lowered url title proc =
    if is_entertainment url title proc
    then entertainment
    else if is_social url title proc
    then social
    else if is_work_code url title proc
    then work_code
    else if is_work_document url title proc
    then work_document
    else if is_work_research url title proc
    then work_research
    else if is_communication url title proc
    then communication
    else if is_system_ui url title proc
    then system_ui
    else unknown

unfoldable pub classify : (unicode_lower : Text → Text) → ClassifierInput → ContentClass
classify unicode_lower input =
    classify_lowered (to_lower unicode_lower input.browser_url)
      (to_lower unicode_lower input.window_title) (to_lower unicode_lower input.process_name)
