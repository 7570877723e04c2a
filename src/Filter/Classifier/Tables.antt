-- ===== src/Filter/Classifier/Tables.antt =====
-- The words that internal/filter/classifier.go looks for.
use digital_ghost.Prelude.{Text, List, [], ◌∷◌, lits}

unfoldable pub entertainment_url_domains : List Text
unfolding lits
entertainment_url_domains = lits (
    "youtube.com" ∷ "youtu.be" ∷ "netflix.com" ∷ "twitch.tv" ∷ "hulu.com" ∷ "disneyplus.com"
    ∷ "primevideo.com" ∷ "spotify.com" ∷ "soundcloud.com" ∷ "tiktok.com" ∷ "reddit.com/r/funny"
    ∷ "reddit.com/r/memes" ∷ "reddit.com/r/gaming" ∷ "imgur.com" ∷ "9gag.com" ∷ "buzzfeed.com" ∷ [])

unfoldable pub entertainment_procs : List Text
unfolding lits
entertainment_procs =
    lits ("vlc" ∷ "mpv" ∷ "totem" ∷ "rhythmbox" ∷ "spotify" ∷ "steam" ∷ "lutris" ∷ "heroic" ∷ [])

unfoldable pub entertainment_title_keywords : List Text
unfolding lits
entertainment_title_keywords = lits ("- youtube" ∷ "netflix" ∷ "twitch" ∷ [])

unfoldable pub social_domains : List Text
unfolding lits
social_domains = lits (
    "twitter.com" ∷ "x.com" ∷ "instagram.com" ∷ "facebook.com" ∷ "linkedin.com/feed" ∷ "reddit.com"
    ∷ "mastodon.social" ∷ "bsky.app" ∷ [])

unfoldable pub work_code_procs : List Text
unfolding lits
work_code_procs = lits (
    "code" ∷ "code-insiders" ∷ "vim" ∷ "nvim" ∷ "neovim" ∷ "emacs" ∷ "idea" ∷ "goland" ∷ "pycharm"
    ∷ "webstorm" ∷ "clion" ∷ "rider" ∷ "xcode" ∷ "eclipse" ∷ "sublime_text" ∷ "zed" ∷ "helix"
    ∷ "cursor" ∷ "gnome-terminal" ∷ "konsole" ∷ "xterm" ∷ "alacritty" ∷ "kitty" ∷ "wezterm"
    ∷ "iterm2" ∷ [])

unfoldable pub work_code_exact_procs : List Text
unfolding lits
work_code_exact_procs = lits (
    "bash" ∷ "zsh" ∷ "fish" ∷ "sh" ∷ "ksh" ∷ "tcsh" ∷ "cmd" ∷ "powershell" ∷ "pwsh"
    ∷ "windows terminal" ∷ [])

unfoldable pub work_code_domains : List Text
unfolding lits
work_code_domains = lits (
    "github.com" ∷ "gitlab.com" ∷ "bitbucket.org" ∷ "codereview.chromium.org" ∷ "gerrit"
    ∷ "jsfiddle.net" ∷ "codepen.io" ∷ "replit.com" ∷ "codesandbox.io" ∷ [])

unfoldable pub work_code_title_keywords : List Text
unfolding lits
work_code_title_keywords = lits (
    ".go" ∷ ".py" ∷ ".rs" ∷ ".ts" ∷ ".js" ∷ ".java" ∷ ".c" ∷ ".cpp" ∷ ".rb" ∷ ".sh" ∷ "terminal"
    ∷ "console" ∷ [])

unfoldable pub work_document_procs : List Text
unfolding lits
work_document_procs = lits (
    "soffice" ∷ "libreoffice" ∷ "evince" ∷ "okular" ∷ "zathura" ∷ "pages" ∷ "numbers" ∷ "keynote"
    ∷ "word" ∷ "excel" ∷ "powerpoint" ∷ "onenote" ∷ "obsidian" ∷ "logseq" ∷ "notion" ∷ "typora"
    ∷ "zettlr" ∷ [])

unfoldable pub work_document_domains : List Text
unfolding lits
work_document_domains = lits (
    "docs.google.com" ∷ "sheets.google.com" ∷ "slides.google.com" ∷ "drive.google.com" ∷ "notion.so"
    ∷ "notion.site" ∷ "confluence" ∷ "sharepoint.com" ∷ "onedrive.live.com" ∷ [])

unfoldable pub work_document_title_keywords : List Text
unfolding lits
work_document_title_keywords =
    lits (".pdf" ∷ ".docx" ∷ ".xlsx" ∷ ".md" ∷ ".txt" ∷ "— notion" ∷ "confluence" ∷ [])

unfoldable pub work_research_domains : List Text
unfolding lits
work_research_domains = lits (
    "arxiv.org" ∷ "scholar.google.com" ∷ "semanticscholar.org" ∷ "pubmed.ncbi.nlm.nih.gov"
    ∷ "stackoverflow.com" ∷ "stackexchange.com" ∷ "news.ycombinator.com" ∷ "lobste.rs" ∷ "lwn.net"
    ∷ "acm.org" ∷ "ieee.org" ∷ "medium.com" ∷ "substack.com" ∷ "dev.to" ∷ "docs." ∷ "wiki."
    ∷ "wikipedia.org" ∷ "man7.org" ∷ [])

unfoldable pub communication_procs : List Text
unfolding lits
communication_procs = lits (
    "slack" ∷ "discord" ∷ "teams" ∷ "msteams" ∷ "zoom" ∷ "telegram-desktop" ∷ "signal-desktop"
    ∷ "thunderbird" ∷ "evolution" ∷ "mutt" ∷ "neomutt" ∷ [])

unfoldable pub communication_domains : List Text
unfolding lits
communication_domains = lits (
    "mail.google.com" ∷ "outlook.office.com" ∷ "slack.com" ∷ "discord.com" ∷ "teams.microsoft.com"
    ∷ "jira." ∷ "linear.app" ∷ "asana.com" ∷ "trello.com" ∷ [])

unfoldable pub system_ui_procs : List Text
unfolding lits
system_ui_procs = lits (
    "nautilus" ∷ "thunar" ∷ "dolphin" ∷ "nemo" ∷ "pcmanfm" ∷ "gnome-control-center"
    ∷ "systemsettings5" ∷ "gnome-software" ∷ "discover" ∷ "synaptic" ∷ "gnome-disks" ∷ "gparted"
    ∷ "gnome-system-monitor" ∷ "ksysguard" ∷ "finder" ∷ "explorer" ∷ "shellexperiencehost"
    ∷ "startmenuexperiencehost" ∷ "searchhost" ∷ "searchapp" ∷ "searchui" ∷ "lockapp" ∷ "logonui"
    ∷ "applicationframehost" ∷ "runtimebroker" ∷ "systemsettings" ∷ "settingssynchost" ∷ "dwm"
    ∷ "taskmgr" ∷ "regedit" ∷ "msiexec" ∷ "winlogon" ∷ "userinit" ∷ [])

unfoldable pub system_ui_title_signals : List Text
unfolding lits
system_ui_title_signals = lits (
    "notification center" ∷ "action center" ∷ "windows security" ∷ "windows update" ∷ "task manager"
    ∷ [])
