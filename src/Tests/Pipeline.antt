-- ===== src/Tests/Pipeline.antt =====
-- The theorems from the comics site to a response, at the run of the update service that fetches
-- one comic.
use microservice_comics.Base.{
  fits_int4, ◌&&◌, string_eq, int_eq, ℕ, ◌≤◌, ◌<◌, ◌^◌, ◌≢◌, pos, String, false, List, [], ◌∷◌, map,
  filter, some, ok, map_ok, ◌≡◌, refl, inl, arith, Elem, length, ◌==◌, atoi, trim_space,
  if◌then◌else◌,
}
use microservice_comics.Words.Server.{WordsClient}
use microservice_comics.Update.Model
use microservice_comics.Update.Model.{Error}
use microservice_comics.Update.Service.{process, fetch, normalised}
use microservice_comics.Update.Storage.{storage, add, row_of}
use microservice_comics.Update.Whole.{Returns, or_new}
use microservice_comics.Update.WordsClient as UpdateWords
use microservice_comics.Search.Model.{Comics, Words}
use microservice_comics.Search.Index.{build}
use microservice_comics.Search.Service.{tokens_for, or_default, find, indexed_search}
use microservice_comics.Search.Service.Pages.{answering}
use microservice_comics.Search.Storage.{to_comics, is_candidate, get_by_id}
use microservice_comics.Search.WordsClient as SearchWords
use microservice_comics.Pipeline.{to_row, read, table_of, comic_response, add-get_by_id}
use microservice_comics.Pipeline.OwnTitle.{title_found}
use microservice_comics.Api.Server.{serve_public}
use microservice_comics.Pipeline.Served.{get_request, on_table, update_served}
use microservice_comics.Tests.Server.{settings, services, backend, moment}
use microservice_comics.Tests.Gateway.{jwt}
use microservice_comics.Tests.Update.{
  one_info, xkcd, words, empty, is_numbered, after, one_le_one, one_update,
}

abbrev barrel : Model.Comics
barrel = record { id = pos 1; url = "u"; title = "barrel" ∷ []; alt = []; words = [] }

add-get_by_id_example : get_by_id (table_of (add empty barrel).0) (pos 1) ≡ (
    if fits_int4 (pos 1) && pos 1 == pos 1
    then ok (read barrel)
    else get_by_id (table_of empty) (pos 1))
add-get_by_id_example = add-get_by_id empty barrel (pos 1) refl

abbrev words_of_search : Words
words_of_search = record { norm = λ phrase. ok (phrase ∷ []) }

one_asked : atoi "1" ≡ some (pos 1)
unfolding atoi
one_asked = refl

one_small : 1 < 2 ^ 31
one_small = omega arith

update_served_example :
    serve_public jwt settings
      (on_table services (λ n. n) after.0.1 words_of_search (build []))
      moment
      (get_request "1")
      backend
    ≡ (backend, comic_response (or_new (row_of (pos 1) empty.rows) (fetch xkcd words (pos 1))))
update_served_example =
    update_served jwt settings services moment backend "1" xkcd words is_numbered 1 1 empty after 0
      (λ n. n) words_of_search (build []) one_le_one refl refl one_update one_le_one one_asked
      one_small

-- A words service that takes each phrase for one word.
abbrev client : WordsClient
client = record { norm = λ phrase. ok (phrase ∷ []); ping = ok tt }

same_update : Returns xkcd (UpdateWords.words client) is_numbered (pos 1) false false empty after
unfolding UpdateWords.words
same_update = one_update

title_trimmed : trim_space " t " ≡ "t"
unfolding trim_space
title_trimmed = refl

title_given : tokens_for (SearchWords.words client) " t " 0 ≡ ok ("t" ∷ [])
unfolding tokens_for SearchWords.words
title_given = refl

abbrev token : String
token = "t"

token_full : token ≢ ""
token_full h = cc h

few_rows : length (filter (is_candidate (token ∷ [])) (map to_row after.0.1.rows)) ≤ or_default 0
unfolding process fetch storage add
few_rows = omega arith

title_found_example :
    (cs : List Comics) × (find
        (answering (map to_row after.0.1.rows))
        (SearchWords.words client)
        " t "
        0
      ≡ ok cs)
    × (map_ok
          (λ (r : List Comics × ℕ). r.0)
          (indexed_search
            (build (map to_comics (map to_row after.0.1.rows)))
            (SearchWords.words client)
            " t "
            0)
        ≡ ok cs)
    × Elem (read (normalised (UpdateWords.words client) (one_info (pos 1)))) cs
unfolding row_of
title_found_example =
    title_found xkcd client is_numbered 1 1 empty after one_le_one refl refl same_update 0
      one_le_one (one_info (pos 1)) " t " 0 (token ∷ []) token one_small tt refl refl title_trimmed
      title_given (inl refl) token_full few_rows
