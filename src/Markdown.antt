-- ===== src/Markdown.antt =====
-- diffuzzer/src/markdown.rs: the text of a report. A text is the list of its code points, but the
-- underline of a heading is as long as its text has bytes.
pub mod Fences
pub mod Reason
use diffuzzer.Prelude.{
  ℕ, zero, suc, ◌+◌, Bool, true, false, ◌&&◌, ◌||◌, List, [], ◌∷◌, ◌++◌, map, if◌then◌else◌, ◌==◌,
  ltb, codes,
}
use diffuzzer.Text.{trim}

-- `Markdown`, its content
abbrev pub Markdown : Type 0
Markdown = List ℕ

abbrev pub newline : ℕ
newline = 10

abbrev pub backtick : ℕ
backtick = b'`'

abbrev pub question : ℕ
question = b'?'

-- `str::len`: the number of bytes in UTF-8
unfoldable pub utf8_length : List ℕ → ℕ
utf8_length [] = 0
utf8_length (c ∷ s) =
    (if ltb c 0x80 then 1 else if ltb c 0x800 then 2 else if ltb c 0x10000 then 3 else 4)
    + utf8_length s

-- `str::repeat` of one character
unfoldable pub repeat : ℕ → ℕ → List ℕ
repeat c zero = []
repeat c (suc n) = c ∷ repeat c n

-- `replace` of one character by one or by a text
unfoldable pub replace_char : ℕ → List ℕ → List ℕ → List ℕ
replace_char c by [] = []
replace_char c by (d ∷ s) = (if d == c then by else d ∷ []) ++ replace_char c by s

-- `replace("```", "???")`
unfoldable pub replace_fence : List ℕ → List ℕ
replace_fence (a ∷ b ∷ c ∷ s) =
    let rest = replace_fence s in
    let next = replace_fence (b ∷ c ∷ s) in
    if a == backtick && (b == backtick && c == backtick)
    then question ∷ question ∷ question ∷ rest
    else a ∷ next
replace_fence (a ∷ b ∷ []) = a ∷ b ∷ []
replace_fence (a ∷ []) = a ∷ []
replace_fence [] = []

unfoldable pub underlined : ℕ → List ℕ → Markdown
underlined mark text =
    let line = replace_char newline (codes " ") text in
    line ++ (newline ∷ repeat mark (utf8_length line) ++ (newline ∷ newline ∷ []))

unfoldable pub new : List ℕ → Markdown
new title = underlined b'=' title

unfoldable pub heading : Markdown → List ℕ → Markdown
heading content text = content ++ underlined b'-' text

unfoldable pub paragraph : Markdown → List ℕ → Markdown
paragraph content text =
    content
    ++ (replace_char newline (newline ∷ newline ∷ []) (trim text) ++ (newline ∷ newline ∷ []))

-- `Language::of`
unfoldable pub language_of : List ℕ → List ℕ
language_of lang = replace_char backtick (question ∷ []) lang

unfoldable pub codeblock : Markdown → List ℕ → List ℕ → Markdown
codeblock content lang code =
    content
    ++ (codes "```"
        ++ (lang
            ++ (newline ∷ replace_fence code
                ++ (newline ∷ codes "```" ++ (newline ∷ newline ∷ [])))))
