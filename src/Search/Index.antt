-- ===== src/Search/Index.antt =====
-- search-services/search/core/index.go: the inverted index. A Go map is an association list, a
-- `map[T]struct{}` the list of its keys. The lock makes each method one step.
pub mod Postings
pub mod Candidates
pub mod Distinct
use microservice_comics.Base.{
  string_eq, int_eq, ℤ, String, List, [], ◌∷◌, ◌++◌, Option, none, some, if◌then◌else◌, ◌==◌, has,
  put, lookup, insert, sort_by, ltb_ℤ,
}
use microservice_comics.Search.Model.{Comics}

pub record InvertedIndex : Type 0 where
  pub by_token : List (String × List ℤ)
  pub docs : List (ℤ × Comics)

abbrev pub new_inverted_index : InvertedIndex
new_inverted_index = record { by_token = []; docs = [] }

abbrev or_empty : Option (List ℤ) → List ℤ
or_empty none = []
or_empty (some ids) = ids

-- `byToken[tok]`: the zero value of a missing key is the empty slice.
pub postings : String → List (String × List ℤ) → List ℤ
unfolding lookup
postings tok by_token = or_empty (lookup tok by_token)

-- What the closure `add` reads and writes.
pub record Building : Type 0 where
  pub seen : List String
  pub by_token : List (String × List ℤ)

pub add : ℤ → String → Building → Building
add id tok b = if tok == "" then b else if has b.seen tok then b else record {
  seen = put tok b.seen;
  by_token = insert tok (postings tok b.by_token ++ id ∷ []) b.by_token;
}

-- `for _, t := range toks { add(t) }`
pub add_all : ℤ → List String → Building → Building
add_all id [] b = b
add_all id (tok ∷ toks) b = add_all id toks (add id tok b)

-- The body of the loop over the comics, with a new `seen`.
pub add_comic : Comics → List (String × List ℤ) → List (String × List ℤ)
add_comic c by_token =
    (add_all c.id c.words (
      add_all c.id c.alt
        (add_all c.id c.title (record { seen = []; by_token = by_token })))).by_token

pub tokens_from : List (String × List ℤ) → List Comics → List (String × List ℤ)
tokens_from by_token [] = by_token
tokens_from by_token (c ∷ cs) = tokens_from (add_comic c by_token) cs

pub docs_from : List (ℤ × Comics) → List Comics → List (ℤ × Comics)
docs_from docs [] = docs
docs_from docs (c ∷ cs) = docs_from (insert c.id c docs) cs

-- `Build` replaces both maps.
unfoldable pub build : List Comics → InvertedIndex
unfolding tokens_from docs_from add_comic add_all add postings lookup insert
build comics = record { by_token = tokens_from [] comics; docs = docs_from [] comics }

pub put_all : List ℤ → List ℤ → List ℤ
put_all set [] = set
put_all set (id ∷ ids) = put_all (put id set) ids

-- `set` of `DocsForTokens`.
pub collect : InvertedIndex → List ℤ → List String → List ℤ
collect idx set [] = set
collect idx set (tok ∷ toks) = collect idx (put_all set (postings tok idx.by_token)) toks

-- The two early returns give nil, which is also what sorting an empty set gives.
unfoldable pub docs_for_tokens : InvertedIndex → List String → List ℤ
unfolding collect put_all postings lookup sort_by
docs_for_tokens idx [] = []
docs_for_tokens idx (tok ∷ toks) = sort_by ltb_ℤ (collect idx [] (tok ∷ toks))

abbrev prepend : Option Comics → List Comics → List Comics
prepend none cs = cs
prepend (some c) cs = c ∷ cs

unfoldable pub docs_by_ids : InvertedIndex → List ℤ → List Comics
unfolding lookup
docs_by_ids idx [] = []
docs_by_ids idx (id ∷ ids) = prepend (lookup id idx.docs) (docs_by_ids idx ids)
