-- ===== src/Search/Service.antt =====
-- search-services/search/core/service.go: the methods of the service, over its two ports. The
-- index is the only state; a method that does not change it takes it as an argument.

pub mod Agreement
pub mod Pages
pub mod Exact
use microservice_comics.Base.{
  ℕ, ◌+◌, ◌-◌, ◌*◌, ◌%◌, ◌^◌, ℤ, pos, String, Bool, true, false, List, [], ◌∷◌, Result, ok, err,
  ◌>>=◌, ◌>>◌, reject_if, nat_beq, ltb, ltb_ℤ, beq_ℤ, is_nonpositive, to_u32, length, string_eq,
  ◌==◌, trim_space, if◌then◌else◌,
}
use microservice_comics.Search.Model.{
  Comics, Error, empty_phrase, to_large_limit, bad_arguments, none_phrase, Db, Words,
}
use microservice_comics.Search.Index.{InvertedIndex, build, docs_for_tokens, docs_by_ids}
use microservice_comics.Search.Rank.{rang_comics}

abbrev pub default_limit : ℕ
default_limit = 10

-- `limit == 0` asks for the default.
abbrev pub or_default : ℕ → ℕ
or_default limit = if nat_beq limit 0 then default_limit else limit

-- The checks that `Find` and `IndexedSearch` begin with, up to the tokens.
unfoldable pub tokens_for : Words → String → ℕ → Result Error (List String)
unfolding trim_space
tokens_for words phrase limit = do
  let trimmed = trim_space phrase
  reject_if (trimmed == "") empty_phrase
  reject_if (ltb 100 (or_default limit)) to_large_limit
  tokens ← words.norm trimmed
  reject_if (nat_beq (length tokens) 0) none_phrase
  ok tokens

unfoldable pub find : Db → Words → String → ℕ → Result Error (List Comics)
unfolding tokens_for rang_comics
find db words phrase limit = do
  tokens ← tokens_for words phrase limit
  comics ← db.find tokens
  ok (rang_comics comics tokens (or_default limit)).0

-- The rest of `IndexedSearch` once it has the ids.
abbrev pub ranked : InvertedIndex → List String → ℕ → List ℤ → List Comics × ℕ
ranked index tokens limit [] = ([], 0)
ranked index tokens limit (id ∷ ids) = rang_comics (docs_by_ids index (id ∷ ids)) tokens limit

unfoldable pub indexed_search : InvertedIndex → Words → String → ℕ → Result Error (List Comics × ℕ)
unfolding tokens_for rang_comics docs_for_tokens docs_by_ids
indexed_search index words phrase limit = do
  tokens ← tokens_for words phrase limit
  ok (ranked index tokens (or_default limit) (docs_for_tokens index tokens))

-- On an error the old index stays.
unfoldable pub rebuild_index : Db → InvertedIndex → InvertedIndex × Result Error (Unit {0})
unfolding build
rebuild_index db index = elim db.all [ err e ↦ (index, err e) | ok comics ↦ (build comics, ok tt) ]

unfoldable pub get_comic_by_id : Db → ℤ → Result Error Comics
get_comic_by_id db id = do reject_if (is_nonpositive id) bad_arguments; db.get_by_id id

-- `page == 0` asks for the first page.
abbrev pub or_first : ℕ → ℕ
or_first page = if nat_beq page 0 then 1 else page

-- `(page - 1) * limit` in uint32.
abbrev pub page_offset : ℕ → ℕ → ℕ
page_offset page limit = (or_first page - 1) * or_default limit % 2 ^ 32

-- Past the last page there is nothing to ask for.
abbrev page_from : Db → ℤ → ℕ → ℤ → Bool → Result Error (List Comics × ℕ)
page_from db offset limit total true = do
  comics ← db.get_all offset (pos (or_default limit))
  ok (comics, to_u32 total)
page_from db offset limit total false = ok ([], to_u32 total)

-- `page` and `limit` are uint32, so below 2^32.
unfoldable pub get_all_comics : Db → ℕ → ℕ → Result Error (List Comics × ℕ)
get_all_comics db page limit = do
  reject_if (ltb 100 (or_default limit)) to_large_limit
  total ← db.count
  let offset = pos (page_offset page limit)
  page_from db offset limit total (ltb_ℤ offset total)

-- `comics[0]`, after the check of its length.
abbrev first_comic : List Comics → Result Error Comics
first_comic [] = err none_phrase
first_comic (c ∷ cs) = ok c

-- `intn` is `rand.Intn`.
unfoldable pub random_comic : (intn : ℤ → ℤ) → Db → Result Error Comics
random_comic intn db = do
  total ← db.count
  reject_if (beq_ℤ total (pos 0)) none_phrase
  comics ← db.get_all (intn total) (pos 1)
  first_comic comics
