-- ===== src/Offline/Quote/ReadBack.antt =====
-- internal/offlineapt/offlineapt.go: a shell splits what is quoted into the same arguments.
use ubuntu_vm_template_build.Base.{
  ℕ, ◌≡◌, refl, sym, ap, ◌∙◌, inl, inr, Bool, false, List, [], ◌∷◌, ◌++◌, map, Option, none, some,
  ◌==◌, if◌then◌else◌, codes, Bool-cases, append_assoc, append-nil, ==_iff,
}
use ubuntu_vm_template_build.Text.{Text, replace_all, join, mem_char}
use ubuntu_vm_template_build.Offline.Quote.{shell_quote, shell_join, command_string}

-- Where a shell is in a line: between words, or in a word, of which it has the characters so far,
-- outside quotes, in single quotes or in double quotes.
data Place : Type 0 where
  between : Place
  bare single double : Text → Place

-- A character with a meaning for a shell outside quotes, other than the space and the quotes.
is_special : ℕ → Bool
unfolding mem_char
is_special c = mem_char c (codes "\t\n\\|&;<>()$`*?[]#~=%{}!")

-- The word that a character ends, and the place behind it; `none` where the shell does more than
-- split.
next : Place → ℕ → Option (Option Text × Place)
unfolding is_special mem_char
next between c =
    if c == b' '
    then some (none, between)
    else if c == b'\''
    then some (none, single [])
    else if c == b'"'
    then some (none, double [])
    else if is_special c
    then none
    else some (none, bare (c ∷ []))
next (bare word) c =
    if c == b' '
    then some (some word, between)
    else if c == b'\''
    then some (none, single word)
    else if c == b'"'
    then some (none, double word)
    else if is_special c
    then none
    else some (none, bare (word ++ c ∷ []))
next (single word) c =
    if c == b'\'' then some (none, bare word) else some (none, single (word ++ c ∷ []))
next (double word) c =
    if c == b'"'
    then some (none, bare word)
    else if mem_char c (codes "$`\\!")
    then none
    else some (none, double (word ++ c ∷ []))

with_word : Option Text → Option (List Text) → Option (List Text)
with_word none words = words
with_word (some word) none = none
with_word (some word) (some words) = some (word ∷ words)

ended : Place → Option (List Text)
ended between = some []
ended (bare word) = some (word ∷ [])
ended (single word) = none
ended (double word) = none

read_from : Place → Text → Option (List Text)
unfolding next with_word ended
read_from place [] = ended place
read_from place (c ∷ line) = elim (next place c) [
  | none ↦ none
  | some (word, place') ↦ with_word word (read_from place' line)
]

-- The words that a POSIX shell splits a line into.
pub read_words : Text → Option (List Text)
unfolding read_from
read_words = read_from between

read_from-single :
    (word : Text) (c : ℕ) (rest : Text)
    → (c == b'\'') ≡ false
    → read_from (single word) (c ∷ rest) ≡ read_from (single (word ++ c ∷ [])) rest
unfolding read_from next with_word
read_from-single word c rest h = rw (read_from, h)

read_from-quoted :
    (value word rest : Text)
    → read_from (single word) (replace_all value b'\'' (codes "'\"'\"'") ++ (b'\'' ∷ rest))
      ≡ read_from (bare (word ++ value)) rest
unfolding read_from replace_all next with_word mem_char
read_from-quoted [] word rest = rw append-nil
read_from-quoted (c ∷ value) word rest = elim (Bool-cases (c == b'\'')) [
  | inl quote ↦ rw (quote) (
      rw (read_from-quoted value (word ++ b'\'' ∷ []) rest, append_assoc, (==_iff c b'\'').0 quote))
  | inr other ↦ rw (
    other,
    read_from-single word c (replace_all value b'\'' (codes "'\"'\"'") ++ (b'\'' ∷ rest)) other,
    read_from-quoted value (word ++ c ∷ []) rest,
    append_assoc,
  )
]

-- A quoted argument is the word that the argument is.
read_from-shell_quote :
    (value rest : Text)
    → read_from between (shell_quote value ++ rest) ≡ read_from (bare value) rest
unfolding read_from shell_quote next with_word mem_char
read_from-shell_quote [] rest = refl
read_from-shell_quote (c ∷ value) rest = rw (append_assoc) (read_from-quoted (c ∷ value) [] rest)

read_from-join :
    (arg : Text) (args : List Text)
    → read_from between (join (map shell_quote (arg ∷ args)) (codes " ")) ≡ some (arg ∷ args)
unfolding join read_from next with_word ended
read_from-join arg [] =
    sym (ap (read_from between) (append-nil (shell_quote arg))) ∙ read_from-shell_quote arg []
read_from-join arg (next_arg ∷ args) =
    rw (read_from-shell_quote arg (b' ' ∷ join (map shell_quote (next_arg ∷ args)) (codes " ")))
      (ap (with_word (some arg)) (read_from-join next_arg args))

read_from-joined :
    (args : List Text) → read_from between (join (map shell_quote args) (codes " ")) ≡ some args
unfolding join read_from ended
read_from-joined [] = refl
read_from-joined (arg ∷ args) = read_from-join arg args

-- Any command and arguments, quoted and joined, are read by a shell as these words, and so are
-- any arguments that `shellJoin` joins.
pub read_words-command_string :
    (name : Text) (args : List Text)
    → (read_words (command_string name args) ≡ some (name ∷ args))
      × (read_words (shell_join args) ≡ some args)
unfolding read_words command_string shell_join
read_words-command_string name args = (read_from-join name args, read_from-joined args)
