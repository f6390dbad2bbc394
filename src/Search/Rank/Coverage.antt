-- ===== src/Search/Rank/Coverage.antt =====
-- How a score relates to the number of tokens that a comic covers.
use microservice_comics.Base.{
  string_eq, ℕ, suc, ◌+◌, ◌*◌, ◌≤◌, ◌<◌, String, false, List, [], ◌∷◌, ◌≡◌, ◌≢◌, inl, inr, refl,
  sym, arith, if◌then◌else◌, has, put, has→Elem, Elem→has, Bool-cases, length, length-append, All,
  All_elem, All-of_Elem,
}
use microservice_comics.Search.Model.{Comics}
use microservice_comics.Search.Rank.{
  Tally, tally_token, tally, no_tally, total_score, score_comic, count_if, weight_title, weight_alt,
  weight_words,
}
use microservice_comics.Search.Rank.Score.{matches, tally_token_covered}

-- No token twice, as the words service returns them.
abbrev pub HasDistinctTokens : List String → Type 0
HasDistinctTokens [] = Unit
HasDistinctTokens (t ∷ ts) = All (λ u. t ≢ u) ts × HasDistinctTokens ts

-- The number of tokens of the query that stand in some field of the comic.
abbrev pub coverage : Comics → List String → ℕ
coverage c [] = 0
coverage c (t ∷ ts) = if matches c t then suc (coverage c ts) else coverage c ts

abbrev weighted : Tally → ℕ
weighted y =
    y.title_matches * weight_title + y.alt_matches * weight_alt + y.words_matches * weight_words

length-put_new :
    (t : String) (ts : List String) → has ts t ≡ false → length (put t ts) ≡ suc (length ts)
length-put_new t ts h = rw h (omega (arith, length-append ts (t ∷ [])))

-- One token that was not covered yet.
tally_token_weights :
    (c : Comics) (t : String) (y : Tally)
    → has y.covered t ≡ false
    → (length (tally_token c t y).covered ≡ count_if (matches c t) (length y.covered))
      × (weighted y + count_if (matches c t) 0 ≤ weighted (tally_token c t y))
      × (weighted (tally_token c t y) ≤ weighted y + 9 * count_if (matches c t) 0)
unfolding tally_token
tally_token_weights c t y h = ground (arith, length-put_new t y.covered h)

fresh_after :
    (c : Comics) (t : String) (ts : List String) (y : Tally)
    → All (λ u. t ≢ u) ts
    → All (λ u. has y.covered u ≡ false) ts
    → All (λ u. has (tally_token c t y).covered u ≡ false) ts
fresh_after c t ts y other fresh = All-of_Elem _ ts (λ u m.
    elim (Bool-cases (has (tally_token c t y).covered u)) [
      | inl e ↦ elim ((tally_token_covered c t y u).0 (has→Elem _ u e)) [
        | inl old ↦ absurd (cc (Elem→has y.covered u old, All_elem _ ts fresh u m))
        | inr k ↦ absurd (All_elem _ ts other u m (sym k.0))
      ]
      | inr e ↦ e
    ])

tally_weights :
    (c : Comics) (ts : List String) (y : Tally)
    → HasDistinctTokens ts
    → All (λ u. has y.covered u ≡ false) ts
    → (length (tally c ts y).covered ≡ length y.covered + coverage c ts)
      × (weighted y + coverage c ts ≤ weighted (tally c ts y))
      × (weighted (tally c ts y) ≤ weighted y + 9 * coverage c ts)
unfolding tally
tally_weights c [] y d fresh = (omega arith, omega arith, omega arith)
tally_weights c (t ∷ ts) y d fresh = ground (
  arith,
  tally_token_weights c t y fresh.0,
  tally_weights c ts (tally_token c t y) d.1 (fresh_after c t ts y d.0 fresh.1),
)

-- With distinct tokens a score lies between 101 and 109 times the number of tokens that are
-- covered.
pub score_comic_bounds :
    (c : Comics) (toks : List String)
    → HasDistinctTokens toks
    → (101 * coverage c toks ≤ score_comic c toks) × (score_comic c toks ≤ 109 * coverage c toks)
unfolding score_comic total_score
score_comic_bounds c toks d = ground (
  arith,
  tally_weights c toks no_tally d
      (All-of_Elem (λ u. has no_tally.covered u ≡ false) toks (λ u m. refl)),
)

-- A comic that covers more of the distinct tokens of a query scores more than one that covers
-- fewer, if the latter covers at most twelve.
pub score_comic-lt_of_coverage :
    (a b : Comics) (toks : List String)
    → HasDistinctTokens toks
    → coverage a toks ≤ 12
    → coverage a toks < coverage b toks
    → score_comic a toks < score_comic b toks
score_comic-lt_of_coverage a b toks d few less =
    omega (arith, score_comic_bounds a toks d, score_comic_bounds b toks d)
