-- ===== src/Words/Service.antt =====
-- search-services/words: words/words.go, words/set.go and the handler of main.go. A text is the
-- list of its code points. The stemmer and the stop words are those of the snowball library.
use microservice_comics.Base.{
  ℕ, ◌+◌, Bool, true, false, not, ◌&&◌, ◌||◌, List, [], ◌∷◌, ◌++◌, Option, none, some, Result, ok,
  err, nat_eq, text_eq, nat_beq, leb, ltb, has, put, if◌then◌else◌, any,
}
use microservice_comics.Base.Grpc.{Code, resource_exhausted}

abbrev pub Text : Type 0
Text = List ℕ

-- The two functions of the library; `none` is an error of the stemmer.
pub record Snowball : Type 0 where
  pub is_stop_word : Text → Bool
  pub stem : Text → Option Text

-- `unicode.ToLower`, as far as the result can be a letter of ASCII: two letters beyond ASCII become
-- one, and all others stay beyond it.
abbrev pub to_lower : ℕ → ℕ
to_lower c =
    if leb b'A' c && leb c b'Z'
    then c + 32
    else if nat_beq c 0x130
    then b'i'
    else if nat_beq c 0x212A
    then b'k'
    else c

-- `[a-z0-9]`
abbrev pub is_alnum : ℕ → Bool
is_alnum c = (leb b'a' c && leb c b'z') || (leb b'0' c && leb c b'9')

-- `nonAlphaNum.ReplaceAllString(lc, " ")`; `gap` tells whether the run that goes on here has its
-- space already.
unfoldable pub clean : (gap : Bool) → Text → Text
clean gap [] = []
clean gap (c ∷ s) =
    let after_word = clean false s in
    let after_gap = clean true s in
    if is_alnum (to_lower c)
    then to_lower c ∷ after_word
    else if gap
    then after_gap
    else b' ' ∷ after_gap

abbrev pub end_word : Text → List Text → List Text
end_word [] ws = ws
end_word (c ∷ s) ws = (c ∷ s) ∷ ws

-- `strings.Fields`, where the only space is U+0020; `word` is what was read of the current field.
unfoldable pub fields : (word : Text) → Text → List Text
fields word [] = end_word word []
fields word (c ∷ s) =
    let closed = fields [] s in
    let longer = fields (word ++ c ∷ []) s in
    if nat_beq c b' ' then end_word word closed else longer

unfoldable pub tokens_of : Text → List Text
unfolding clean fields
tokens_of phrase = fields [] (clean false phrase)

abbrev pub is_digits : Text → Bool
is_digits s = not (any (λ c. ltb c b'0' || ltb b'9' c) s)

-- `err != nil || stem == ""`
abbrev pub or_word : Text → Option Text → Text
or_word w none = w
or_word w (some []) = w
or_word w (some (c ∷ s)) = c ∷ s

-- `out` and the keys of `seen`.
pub record Output : Type 0 where
  pub out : List Text
  pub seen : List Text

-- `if seen.Add(w) { out = append(out, w) }`
abbrev pub add_word : Text → Output → Output
add_word w o = if has o.seen w then o else record { out = o.out ++ w ∷ []; seen = put w o.seen }

module _ (snowball : Snowball) where
  -- The body of the loop.
  unfoldable pub take_token : Text → Output → Output
  take_token [] o = o
  take_token (c ∷ s) o =
      if is_digits (c ∷ s)
      then add_word (c ∷ s) o
      else if snowball.is_stop_word (c ∷ s)
      then o
      else add_word (or_word (c ∷ s) (snowball.stem (c ∷ s))) o

  unfoldable pub take_tokens : List Text → Output → Output
  unfolding take_token
  take_tokens [] o = o
  take_tokens (w ∷ ws) o = take_tokens ws (take_token w o)

  unfoldable pub norm : Text → List Text
  unfolding take_tokens tokens_of
  norm phrase = (take_tokens (tokens_of phrase) (record { out = []; seen = [] })).out

-- The bytes of a code point in UTF-8.
abbrev bytes_of : ℕ → ℕ
bytes_of c = if ltb c 0x80 then 1 else if ltb c 0x800 then 2 else if ltb c 0x10000 then 3 else 4

unfoldable pub byte_length : Text → ℕ
byte_length [] = 0
byte_length (c ∷ s) = bytes_of c + byte_length s

abbrev pub max_phrase_len : ℕ
max_phrase_len = 4096

unfoldable pub norm_rpc : Snowball → Text → Result Code (List Text)
unfolding norm byte_length
norm_rpc snowball phrase =
    if ltb max_phrase_len (byte_length phrase)
    then err resource_exhausted
    else ok (norm snowball phrase)
