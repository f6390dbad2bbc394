-- ===== src/Tests/Search.antt =====
-- The theorems on the search service, at a table of two comics.
use microservice_comics.Base.{
  ◌%◌, All, take, drop, string_eq, int_eq, ℕ, ◌+◌, ◌-◌, ◌*◌, ◌^◌, ◌≤◌, ◌<◌, pos, String, List, [],
  ◌∷◌, map, ok, map_ok, ◌≡◌, ◌↔◌, refl, arith, Elem, sort_by, filter, length,
}
use microservice_comics.Search.Model.{Comics, Words, HasDistinctIds}
use microservice_comics.Search.Storage.{ComicsRow, to_comics, is_candidate, open_db, get_all, count}
use microservice_comics.Search.Storage.Laws.{open_db-Snapshot}
use microservice_comics.Search.Service
use microservice_comics.Search.Service.{
  tokens_for, get_all_comics, or_default, page_offset, random_comic,
}
use microservice_comics.Search.Service.Exact.{searches_exactly}
use microservice_comics.Search.Service.Agreement.{indexed_search-find}
use microservice_comics.Search.Service.Pages.{answering, by_id, get_all_comics_wraps}
use microservice_comics.Search.Index.{build}
use microservice_comics.Search.Index.Candidates.{HasAnyToken}
use microservice_comics.Search.Rank.{scored_list, score_comic, make_set, rang_comics}
use microservice_comics.Search.Rank.Cut.{Outranks, IsRanked, rang_comics-IsRanked}
use microservice_comics.Search.Rank.Coverage.{coverage, score_comic-lt_of_coverage}

abbrev penguins : ComicsRow
penguins = record {
  id = pos 2;
  img_url = "https://imgs.xkcd.com/2.png";
  title = "linux" ∷ [];
  alt = "penguin" ∷ [];
  words = "linux" ∷ "kernel" ∷ [];
}

abbrev barrel : ComicsRow
barrel = record {
  id = pos 1;
  img_url = "https://imgs.xkcd.com/1.png";
  title = "barrel" ∷ [];
  alt = [];
  words = "kernel" ∷ [];
}

abbrev rows : List ComicsRow
rows = penguins ∷ barrel ∷ []

abbrev comics : List Comics
comics = to_comics penguins ∷ to_comics barrel ∷ []

abbrev tokens : List String
tokens = "linux" ∷ "kernel" ∷ []

abbrev two_words : Words
two_words = record { norm = λ phrase. ok tokens }

rows_distinct : HasDistinctIds (map to_comics rows)
rows_distinct = ((λ e. cc, tt), (tt, tt))

indexed_search-find_example :
    map_ok
      (λ (r : List Comics × ℕ). r.0)
      (Service.indexed_search (build (map to_comics rows)) two_words "linux kernel" 1)
    ≡ Service.find (answering rows) two_words "linux kernel" 1
indexed_search-find_example =
    indexed_search-find (open_db-Snapshot rows rows_distinct) two_words "linux kernel" 1

barrel_covers_less : coverage (to_comics barrel) tokens < coverage (to_comics penguins) tokens
unfolding make_set
barrel_covers_less = omega arith

barrel_covers_few : coverage (to_comics barrel) tokens ≤ 12
unfolding make_set
barrel_covers_few = omega arith

score_comic-lt_of_coverage_example :
    score_comic (to_comics barrel) tokens < score_comic (to_comics penguins) tokens
score_comic-lt_of_coverage_example =
    score_comic-lt_of_coverage (to_comics barrel) (to_comics penguins) tokens
      ((λ e. cc, tt), (tt, tt)) barrel_covers_few barrel_covers_less

abbrev reversed : List Comics
reversed = to_comics barrel ∷ to_comics penguins ∷ []

reversed_distinct : HasDistinctIds reversed
reversed_distinct = ((λ e. cc, tt), (tt, tt))

swap_two : (c : Comics) → Elem c comics ↔ Elem c reversed
swap_two c = ground arith

few_comics : length comics < 2 ^ 32
few_comics = omega arith

rang_comics-IsRanked_example :
    IsRanked tokens (rang_comics comics tokens 1).0
    × ((y : Comics)
        → Elem y comics
        → 0 < score_comic y tokens
        → ¬ Elem y (rang_comics comics tokens 1).0
        → (length (rang_comics comics tokens 1).0 ≡ 1)
          × All (λ x. Outranks tokens x y) (rang_comics comics tokens 1).0)
rang_comics-IsRanked_example = rang_comics-IsRanked comics tokens 1 rows_distinct few_comics

-- The limit cuts the second result off.
one_ranked : rang_comics comics tokens 1 ≡ (to_comics penguins ∷ [], 2)
unfolding rang_comics scored_list score_comic sort_by
one_ranked = refl

few_scored : length (scored_list comics tokens) < 2 ^ 32
unfolding scored_list score_comic
few_scored = omega arith

-- The second page of one comic is the comic with the greater id.
second_page : get_all_comics (answering rows) 2 1 ≡ ok (to_comics penguins ∷ [], 2)
unfolding get_all_comics open_db get_all count
second_page = refl

-- 2^26 pages of 64 comics are 2^32 comics.
abbrev far : ℕ
far = 2 ^ 26 + 1

far_page : (far - 1) * 64 ≡ 0 + 1 * 2 ^ 32
far_page = omega arith

far_exists : 1 ≤ far
far_exists = omega arith

far_fits : far < 2 ^ 32
far_fits = omega arith

some_limit : 1 ≤ 64
some_limit = omega arith

small_limit : 64 ≤ 100
small_limit = omega arith

no_offset : 0 < 2 ^ 32
no_offset = omega arith

get_all_comics_wraps_example :
    get_all_comics (answering rows) far 64
    ≡ ok (take 64 (drop 0 (by_id rows)), length rows % 2 ^ 32)
get_all_comics_wraps_example =
    get_all_comics_wraps rows far 64 0 1 far_exists far_fits some_limit small_limit no_offset
      far_page

one_lt_two : 1 < length rows
one_lt_two = omega arith

kernel_given : tokens_for two_words "kernel" 0 ≡ ok tokens
unfolding tokens_for
kernel_given = refl

few_rows : length (filter (is_candidate tokens) rows) ≤ or_default 0
few_rows = omega arith

searches_exactly_example :
    (cs : List Comics) × (Service.find (answering rows) two_words "kernel" 0 ≡ ok cs)
    × (map_ok
          (λ (r : List Comics × ℕ). r.0)
          (Service.indexed_search (build (map to_comics rows)) two_words "kernel" 0)
        ≡ ok cs)
    × ((c : Comics) → Elem c cs ↔ (Elem c (map to_comics rows) × HasAnyToken c tokens))
searches_exactly_example =
    searches_exactly rows rows_distinct two_words "kernel" 0 tokens kernel_given few_rows
