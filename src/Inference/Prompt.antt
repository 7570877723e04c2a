-- ===== src/Inference/Prompt.antt =====
-- internal/inference/ollama.go: the prompt that goes with a frame.
use digital_ghost.Prelude.{Text, List, [], ◌∷◌, ◌++◌, String, lit, is_empty, ◌&&◌, if◌then◌else◌}
use digital_ghost.Filter.Blocklist.{WindowContext}
use digital_ghost.Filter.Classifier.{
  ContentClass, unknown, work_document, work_code, work_research, communication, system_ui,
  entertainment, social,
}

-- The lines of a raw string, with line feeds between them.
unfoldable pub unlines : List String → Text
unfolding lit
unlines [] = []
unlines (s ∷ []) = lit s
unlines (s ∷ t ∷ l) = lit s ++ (10 ∷ unlines (t ∷ l))

unfoldable pub honesty_rules : Text
unfolding unlines
honesty_rules = unlines (
    "Honesty rules (follow exactly):"
    ∷ "- Only describe what is clearly visible. If text is blurry or too small, say so — never guess."
    ∷ "- If the screen is blank or loading, say \"the screen seemed mostly blank\" — don't invent content."
    ∷ "- Use \"it looked like\" / \"I could make out\" when not fully certain."
    ∷ "Skip: toolbars, window chrome, passwords, credentials, layout/colours." ∷ [])

unfoldable pub work_code_focus : Text
unfolding unlines
work_code_focus = unlines (
    "You're helping a developer remember what they were coding." ∷ "Focus on:"
    ∷ "- Programming language and file/function/class names that are clearly visible"
    ∷ "- What the code does or what problem it's solving"
    ∷ "- Any visible error messages, test output, or terminal commands" ∷ "" ∷ "" ∷ [])

unfoldable pub work_document_focus : Text
unfolding unlines
work_document_focus = unlines (
    "You're helping someone remember a document they were reading or writing." ∷ "Focus on:"
    ∷ "- Document title, section heading, or key topic"
    ∷ "- Main idea, argument, or content clearly visible on screen"
    ∷ "- Any names, dates, or specific terms that are legible" ∷ "" ∷ "" ∷ [])

unfoldable pub work_research_focus : Text
unfolding unlines
work_research_focus = unlines (
    "You're helping someone remember an article or research they were reading." ∷ "Focus on:"
    ∷ "- Article or page title and its main claim or finding"
    ∷ "- Source or publication name if clearly visible"
    ∷ "- Key concepts, terms, or takeaways visible on screen" ∷ "" ∷ "" ∷ [])

unfoldable pub communication_focus : Text
unfolding unlines
communication_focus = unlines (
    "You're helping someone remember a conversation or message thread." ∷ "Focus on:"
    ∷ "- Platform and general topic being discussed (not exact private messages)"
    ∷ "- Visible project, task, or decision being referenced"
    ∷ "- Who the conversation involves if names are clearly shown" ∷ "" ∷ "" ∷ [])

unfoldable pub default_focus : Text
unfolding unlines
default_focus = unlines (
    "You're helping someone remember what they were doing." ∷ "Focus on:"
    ∷ "- What the person was actually doing or reading"
    ∷ "- The main topic, project, or task visible on screen"
    ∷ "- Any meaningful text, names, or ideas that were clearly visible" ∷ "" ∷ "" ∷ [])

unfoldable pub focused_ending : Text
unfolding unlines
focused_ending =
    unlines ("" ∷ "" ∷ "Write 2-3 sentences. End with: TAGS: [comma-separated keywords]" ∷ [])

unfoldable pub default_ending : Text
unfolding unlines
default_ending =
    unlines (
      "" ∷ "" ∷ "Write 2-3 warm, natural sentences. End with: TAGS: [comma-separated keywords]"
      ∷ [])

abbrev focused : Text → Text
focused focus = focus ++ (honesty_rules ++ focused_ending)

unfoldable pub default_prompt : Text
unfolding default_focus honesty_rules default_ending
default_prompt = default_focus ++ (honesty_rules ++ default_ending)

-- The entry of classPrompts, or the default prompt for a class without one.
unfoldable pub class_prompt : ContentClass → Text
unfolding work_code_focus work_document_focus work_research_focus communication_focus honesty_rules
    focused_ending default_prompt
class_prompt work_code = focused work_code_focus
class_prompt work_document = focused work_document_focus
class_prompt work_research = focused work_research_focus
class_prompt communication = focused communication_focus
class_prompt unknown = default_prompt
class_prompt system_ui = default_prompt
class_prompt entertainment = default_prompt
class_prompt social = default_prompt

abbrev pub context_line : String → Text → Text
context_line label value = if is_empty value then [] else lit label ++ (value ++ (10 ∷ []))

unfoldable pub preamble : WindowContext → Text
unfolding lit
preamble c =
    if is_empty c.process_name && is_empty c.window_title && is_empty c.browser_url
    then []
    else lit "Context:\n"
      ++ (context_line "  App: " c.process_name
          ++ (context_line "  Window: " c.window_title
              ++ (context_line "  URL: " c.browser_url ++ (10 ∷ []))))

unfoldable pub build_inference_prompt : WindowContext → ContentClass → Text
unfolding preamble class_prompt
build_inference_prompt c class = preamble c ++ class_prompt class
