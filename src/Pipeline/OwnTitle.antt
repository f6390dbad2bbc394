-- ===== src/Pipeline/OwnTitle.antt =====
-- A comic is found by its own title: search-services/update and search-services/search ask the same
-- search-services/words for the tokens of the title.
use microservice_comics.Base.{
  ◌<◌, ◌^◌, true, sym, arith, ℕ, suc, ◌≤◌, ◌≢◌, ℤ, pos, String, Bool, false, List, ◌++◌, map,
  filter, none, some, Result, ok, map_ok, map_err, map_err_ok, >>=-eq-ok, reject_if, ◌≡◌, ap, ◌∙◌,
  inl, Elem, Elem-append, length, trim_space, nat_beq, ltb, string_eq, ◌==◌,
}
use microservice_comics.Words.Server.{WordsClient}
use microservice_comics.Update.Model
use microservice_comics.Update.Model.{XkcdInfo, Xkcd}
use microservice_comics.Update.Storage
use microservice_comics.Update.Storage.{row_of}
use microservice_comics.Update.Service.{fetch, normalised}
use microservice_comics.Update.Contents.{fetched, storable_own}
use microservice_comics.Update.Whole.{Returns, or_new}
use microservice_comics.Update.Keys.{HasKeys}
use microservice_comics.Update.WordsClient as UpdateWords
use microservice_comics.Search.Model.{Comics, Words}
use microservice_comics.Search.WordsClient as SearchWords
use microservice_comics.Search.Storage.{to_comics, is_candidate}
use microservice_comics.Search.Index.{build}
use microservice_comics.Search.Service.{tokens_for, or_default, find, indexed_search}
use microservice_comics.Search.Service.Pages.{answering}
use microservice_comics.Pipeline.{to_row, read, update_search}

-- The tokens of a phrase are what the service gives for the phrase without the space around it.
tokens_for-norm :
    (words : Words) (phrase : String) (limit : ℕ) (tokens : List String)
    → tokens_for words phrase limit ≡ ok tokens
    → words.norm (trim_space phrase) ≡ ok tokens
unfolding tokens_for
tokens_for-norm words phrase limit tokens h =
    let (u, full, rest) = >>=-eq-ok (reject_if (trim_space phrase == "") _) _ h in
    let (v, fits, more) = >>=-eq-ok (reject_if (ltb 100 (or_default limit)) _) _ rest in
    let (toks, asked, last) = >>=-eq-ok (words.norm (trim_space phrase)) _ more in
    let (w, some_token, same) = >>=-eq-ok (reject_if (nat_beq (length toks) 0) _) _ last in
    asked ∙ same

same_norm :
    (c : WordsClient) (s : String) (tokens : List String)
    → (SearchWords.words c).norm s ≡ ok tokens
    → (UpdateWords.words c).norm s ≡ ok tokens
unfolding SearchWords.words UpdateWords.words
same_norm c s tokens h = ap (map_err UpdateWords.norm_error) (map_err_ok _ (c.norm s) h)

module _ (xkcd : Xkcd) (c : WordsClient)
    (numbered : (id : ℤ) (info : XkcdInfo) → xkcd.get id ≡ ok info → info.id ≡ id) (n latest : ℕ)
    (d : Storage.Database) (t : (Bool × Storage.Database) × Result Model.Error (Unit {0}))
    (some_worker : 1 ≤ n) (last : xkcd.last_id ≡ ok (pos latest)) (up : d.outage ≡ none)
    (returns : Returns xkcd (UpdateWords.words c) numbered (pos n) false false d t) (k : ℕ)
    (listed : suc k ≤ latest) where
  stored_info :
      (info : XkcdInfo)
      → suc k < 2 ^ 31
      → row_of (pos (suc k)) d.rows ≡ none
      → xkcd.get (pos (suc k)) ≡ ok info
      → or_new (row_of (pos (suc k)) d.rows) (fetched xkcd (UpdateWords.words c) (pos (suc k)))
        ≡ some (normalised (UpdateWords.words c) info)
  unfolding fetch
  stored_info info small missing got =
      let fits : ltb (suc k) (2 ^ 31) ≡ true = ground arith in
      let own : (normalised (UpdateWords.words c) info).id ≡ pos (suc k) = numbered _ info got in
      let whole =
        storable_own (some (normalised (UpdateWords.words c) info)) (pos (suc k)) fits (λ r same.
          let mine : normalised (UpdateWords.words c) info ≡ r = cc in
          ap (λ (o : Model.Comics). o.id) (sym mine) ∙ own) in
      rw missing (rw got whole)

  -- Let the site give, for each number it answers, the comic of that number, and let both services
  -- ask the same words service. Let a call of `Update` with at least one worker find the flag free,
  -- the last number, and the database with distinct ids, and not be cancelled. Let the site have a
  -- comic for a number from 1 to the last one, below 2^31, that was missing. A phrase that is its title, up to
  -- space around it, then finds it, in the database and in an index of the table, if the title has
  -- a token that is not empty, and no more comics than the limit share a token with it.
  pub title_found :
      (info : XkcdInfo) (phrase : String) (limit : ℕ) (tokens : List String) (token : String)
      → suc k < 2 ^ 31
      → HasKeys d.rows
      → row_of (pos (suc k)) d.rows ≡ none
      → xkcd.get (pos (suc k)) ≡ ok info
      → trim_space phrase ≡ info.title
      → tokens_for (SearchWords.words c) phrase limit ≡ ok tokens
      → Elem token tokens
      → token ≢ ""
      → length (filter (is_candidate tokens) (map to_row t.0.1.rows)) ≤ or_default limit
      → (cs : List Comics) × (find
            (answering (map to_row t.0.1.rows))
            (SearchWords.words c)
            phrase
            limit
          ≡ ok cs)
        × (map_ok
              (λ (r : List Comics × ℕ). r.0)
              (indexed_search
                (build (map to_comics (map to_row t.0.1.rows)))
                (SearchWords.words c)
                phrase
                limit)
            ≡ ok cs)
        × Elem (read (normalised (UpdateWords.words c) info)) cs
  title_found info phrase limit tokens token small keys missing got title given here full few =
      let asked = tokens_for-norm (SearchWords.words c) phrase limit tokens given in
      let own : (UpdateWords.words c).norm info.title ≡ ok tokens =
        same_norm c info.title tokens (rw title at asked) in
      let row = normalised (UpdateWords.words c) info in
      let in_title : Elem token row.title = rw own here in
      update_search xkcd (UpdateWords.words c) numbered n latest d t some_worker last up returns k
        listed row (SearchWords.words c) phrase limit tokens keys
        (stored_info info small missing got) given
        (token, here, full, (Elem-append token row.title (row.alt ++ row.words)).1 (inl in_title))
        few
