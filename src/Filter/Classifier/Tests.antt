-- ===== src/Filter/Classifier/Tests.antt =====
-- Runs of internal/filter/classifier.go at concrete inputs.
use digital_ghost.Prelude.{Text, true, false, ◌≡◌, refl, ◌↔◌, ◌<◌, lit, to_lower, contains}
use digital_ghost.Filter.Classifier.{
  ContentClass, social, ClassifierInput, any_contains, is_entertainment, is_social,
  classify_lowered, classify,
}
use digital_ghost.Filter.Classifier.Tables.{
  entertainment_url_domains, entertainment_procs, entertainment_title_keywords, social_domains,
}
use digital_ghost.Filter.Classifier.Laws.{has_words, rank, classify_iff}

abbrev same : Text → Text
same s = s

abbrev dropbox : ClassifierInput
dropbox = record {
  process_name = lit "Firefox";
  window_title = lit "Shop.com";
  browser_url = lit "https://www.dropbox.com/home";
}

dropbox_is_social : classify same dropbox ≡ social
unfolding classify classify_lowered is_entertainment is_social any_contains contains to_lower
    entertainment_url_domains entertainment_procs entertainment_title_keywords social_domains lit
dropbox_is_social = refl

classify_iff_example : (classify same dropbox ≡ social) ↔ (
    (is_social
        (to_lower same dropbox.browser_url)
        (to_lower same dropbox.window_title)
        (to_lower same dropbox.process_name)
      ≡ true)
    × ((j : ContentClass)
        → rank j < 1
        → has_words j
            (to_lower same dropbox.browser_url)
            (to_lower same dropbox.window_title)
            (to_lower same dropbox.process_name)
          ≡ false))
classify_iff_example = classify_iff same dropbox social
