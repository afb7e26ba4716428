-- ===== src/Detective/Language.antt =====
-- internal/detective/truncate.go, detectLanguage, with `filepath.Ext`.
use agent_frei_igi.Prelude.{◌≡◌, refl, Text, bytes, text_eq, to_lower, [], ◌∷◌, ◌==◌, if◌then◌else◌}
use mathlib.Core.List.{reverse}

-- From the end of the name: the suffix that a dot begins, unless a slash comes first.
ext_from : Text → Text → Text
ext_from [] suffix = []
ext_from (c ∷ before) suffix =
    let rest = ext_from before (c ∷ suffix) in
    if c == b'/' then [] else if c == b'.' then c ∷ suffix else rest

-- filepath.Ext
unfoldable pub ext : Text → Text
unfolding ext_from
ext name = ext_from (reverse name) []

language_of : Text → Text
language_of e =
    if text_eq e (bytes ".go")
    then bytes "Go"
    else if text_eq e (bytes ".ts")
    then bytes "TypeScript"
    else if text_eq e (bytes ".js")
    then bytes "JavaScript"
    else if text_eq e (bytes ".py")
    then bytes "Python"
    else if text_eq e (bytes ".rs")
    then bytes "Rust"
    else if text_eq e (bytes ".rb")
    then bytes "Ruby"
    else if text_eq e (bytes ".java")
    then bytes "Java"
    else if text_eq e (bytes ".kt")
    then bytes "Kotlin"
    else if text_eq e (bytes ".swift")
    then bytes "Swift"
    else if text_eq e (bytes ".cpp")
    then bytes "C++"
    else if text_eq e (bytes ".cc")
    then bytes "C++"
    else if text_eq e (bytes ".cxx")
    then bytes "C++"
    else if text_eq e (bytes ".c")
    then bytes "C"
    else if text_eq e (bytes ".h")
    then bytes "C Header"
    else if text_eq e (bytes ".cs")
    then bytes "C#"
    else if text_eq e (bytes ".php")
    then bytes "PHP"
    else if text_eq e (bytes ".sh")
    then bytes "Shell"
    else if text_eq e (bytes ".md")
    then bytes "Markdown"
    else if text_eq e (bytes ".json")
    then bytes "JSON"
    else if text_eq e (bytes ".yaml")
    then bytes "YAML"
    else if text_eq e (bytes ".yml")
    then bytes "YAML"
    else if text_eq e (bytes ".sql")
    then bytes "SQL"
    else if text_eq e (bytes ".html")
    then bytes "HTML"
    else if text_eq e (bytes ".htm")
    then bytes "HTML"
    else if text_eq e (bytes ".css")
    then bytes "CSS"
    else []

unfoldable pub detect_language : Text → Text
unfolding ext language_of
detect_language name = language_of (to_lower (ext name))

go_file : detect_language (bytes "cmd/main.GO") ≡ bytes "Go"
unfolding detect_language to_lower text_eq
go_file = refl

dot_dir : detect_language (bytes "a.go/Makefile") ≡ []
unfolding detect_language to_lower text_eq
dot_dir = refl
