-- ===== src/Search/Rank.antt =====
-- search-services/search/core/service.go: scoring and ranking.
pub mod Score
pub mod Order
pub mod Results
pub mod Cut
pub mod Coverage
use microservice_comics.Base.{
  string_eq, ℕ, suc, ◌+◌, ◌*◌, ◌%◌, ◌^◌, ℤ, String, Bool, List, [], ◌∷◌, map, if◌then◌else◌, ◌==◌,
  has, put, length, take, nat_beq, ltb, ltb_ℤ, ◌||◌, sort_by,
}
use microservice_comics.Search.Model.{Comics}

abbrev pub weight_title : ℕ
weight_title = 5

abbrev pub weight_alt : ℕ
weight_alt = 3

abbrev pub weight_words : ℕ
weight_words = 1

make_set_from : List String → List String → List String
make_set_from m [] = m
make_set_from m (v ∷ vs) = make_set_from (if v == "" then m else put v m) vs

unfoldable pub make_set : List String → List String
unfolding make_set_from
make_set arr = make_set_from [] arr

-- The counters of `scoreComic`; `covered` is a set.
pub record Tally : Type 0 where
  pub title_matches : ℕ
  pub alt_matches : ℕ
  pub words_matches : ℕ
  pub covered : List String

-- One round of its loop: which of the three sets hold the token.
abbrev pub count_if : Bool → ℕ → ℕ
count_if b n = if b then suc n else n

unfoldable pub tally_token : Comics → String → Tally → Tally
unfolding make_set
tally_token c t y =
    let in_title = has (make_set c.title) t in
    let in_alt = has (make_set c.alt) t in
    let in_words = has (make_set c.words) t in
    record {
      title_matches = count_if in_title y.title_matches;
      alt_matches = count_if in_alt y.alt_matches;
      words_matches = count_if in_words y.words_matches;
      covered = if in_title || in_alt || in_words then put t y.covered else y.covered;
    }

unfoldable pub tally : Comics → List String → Tally → Tally
unfolding tally_token
tally c [] y = y
tally c (t ∷ ts) y = tally c ts (tally_token c t y)

abbrev pub no_tally : Tally
no_tally = record { title_matches = 0; alt_matches = 0; words_matches = 0; covered = [] }

unfoldable pub total_score : Tally → ℕ
total_score y =
    if nat_beq (length y.covered) 0
    then 0
    else length y.covered * 100
      + y.title_matches * weight_title
      + y.alt_matches * weight_alt
      + y.words_matches * weight_words

unfoldable pub score_comic : Comics → List String → ℕ
unfolding tally total_score
score_comic c tokens = total_score (tally c tokens no_tally)

pub record Scored : Type 0 where
  pub comic : Comics
  pub score : ℕ

-- The comics with a positive score, with it.
unfoldable pub scored_list : List Comics → List String → List Scored
scored_list [] tokens = []
scored_list (c ∷ cs) tokens =
    if ltb 0 (score_comic c tokens)
    then record { comic = c; score = score_comic c tokens } ∷ scored_list cs tokens
    else scored_list cs tokens

-- The comparison that `sort.Slice` is given.
abbrev pub ranks_before : Scored → Scored → Bool
ranks_before a b =
    if nat_beq a.score b.score then ltb_ℤ a.comic.id b.comic.id else ltb b.score a.score

abbrev pub comics_of : List Scored → List Comics
comics_of = map (λ (s : Scored). s.comic)

-- `uint32(len(scoredList))`
abbrev pub u32_length {ℓ} : {A : Type ℓ} → List A → ℕ
u32_length l = length l % 2 ^ 32

unfoldable pub rang_comics : List Comics → List String → ℕ → List Comics × ℕ
unfolding scored_list score_comic sort_by
rang_comics comics tokens limit =
    let sorted = sort_by ranks_before (scored_list comics tokens) in
    (
      comics_of (if ltb limit (u32_length sorted) then take limit sorted else sorted),
      u32_length (scored_list comics tokens),
    )
