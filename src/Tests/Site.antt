-- ===== src/Tests/Site.antt =====
-- The theorem on an update over HTTP, at a site with a last number and no comics.
use Prim.Native.Char.{Char, code}
use Prim.Native.String.{◌++◌}
use Prim.Native.String.append
use microservice_comics.Base.{
  ℕ, suc, ◌≤◌, ◌<◌, ℤ, pos, String, Bool, true, false, ◌&&◌, [], ◌∷◌, none, Result, ok, err, err_ok,
  ok_injective, ◌≡◌, refl, sym, ap, ◌∙◌, arith, leb, format_int, format_int-head, if◌then◌else◌,
}
use microservice_comics.Update.Model.{Error, failure, XkcdInfo, Words}
use microservice_comics.Update.Service.{Plan, plan}
use microservice_comics.Update.Storage.{Database, storage, ids, row_of}
use microservice_comics.Update.Run.{gone, Run, Step, Reach, started, IsDone}
use microservice_comics.Update.Contents.{job}
use microservice_comics.Update.Contents.{fetched}
use microservice_comics.Update.Whole.{Returns, ran, is_known, or_new}
use microservice_comics.Update.Xkcd.{Res, HttpReply, xkcd, last_id}
use microservice_comics.Update.Xkcd.Site.{IsNumbered, numbered}
use microservice_comics.Update.Main
use microservice_comics.Update.Main.{Config, Outside, Server, started_fills}

abbrev base : String
base = "http://s"

abbrev second : String → ℕ
second (String.◌∷◌ a (String.◌∷◌ b s)) = code b
second _ = 0

-- What follows a prefix of the same length.
abbrev after_prefix : String → String → String
after_prefix String.[] s = s
after_prefix (String.◌∷◌ p ps) String.[] = ""
after_prefix (String.◌∷◌ p ps) (String.◌∷◌ c s) = after_prefix ps s

after_prefix-append : (p t : String) → after_prefix p (p ++ t) ≡ t
after_prefix-append String.[] t = append.nil t
after_prefix-append (String.◌∷◌ c p) t =
    ap (after_prefix (String.◌∷◌ c p)) (append.cons c p t) ∙ after_prefix-append p t

abbrev last_res : Res
last_res = record { num = pos 1; img = "u"; title = "t"; alt = "a"; transcript = "d" }

abbrev page : Bool → HttpReply
page true = record { status_code = 200; body = ok last_res }
page false = record { status_code = 404; body = err (failure "eof") }

abbrev site : String → Result Error HttpReply
site u = ok (page (leb b'a' (second (after_prefix base u))))

one_letter : (c : Char) (t : String) → String.◌∷◌ c "" ++ t ≡ String.◌∷◌ c t
one_letter c t = append.cons c "" t ∙ ap (String.◌∷◌ c) (append.nil t)

second-comic :
    (c : Char) (f rest : String)
    → second (after_prefix base (base ++ ("/" ++ (String.◌∷◌ c f ++ rest)))) ≡ code c
second-comic c f rest = ap second (
    after_prefix-append base ("/" ++ (String.◌∷◌ c f ++ rest))
    ∙ (one_letter "/" (String.◌∷◌ c f ++ rest) ∙ ap (String.◌∷◌ "/") (append.cons c f rest)))

no_comics : (id : ℤ) → site (base ++ ("/" ++ (format_int id ++ "/info.0.json"))) ≡ ok (page false)
no_comics id =
    let (c, f, starts, digit) = format_int-head id in
    rw starts (rw (second-comic c f "/info.0.json") (rw digit refl))

site-IsNumbered : IsNumbered site base
site-IsNumbered id r x answered decoded =
    let same : page false ≡ r = ok_injective (sym (no_comics id) ∙ answered) in
    absurd (err_ok (ap (λ (r : HttpReply). r.body) same ∙ decoded))

last_one : (xkcd site base).last_id ≡ ok (pos 1)
unfolding xkcd last_id
last_one = refl

abbrev words : Words
words = record { norm = λ phrase. ok [] }

abbrev numbered_site : (id : ℤ) (info : XkcdInfo) → (xkcd site base).get id ≡ ok info → info.id ≡ id
numbered_site = numbered site base site-IsNumbered

-- The table has the one comic already.
abbrev one_row : Database
one_row = record {
  rows = record { id = pos 1; url = "u"; title = []; alt = []; words = [] } ∷ [];
  outage = none;
}

abbrev one_plan : Plan
one_plan = record { latest = pos 1; exists = pos 1 ∷ []; workers = pos 1 }

makes_plan : plan storage (xkcd site base) (pos 1) one_row ≡ ok one_plan
unfolding plan storage ids xkcd last_id
makes_plan = refl

abbrev OneStep : Run Database → Run Database → Type 0
OneStep = Step 1 (is_known one_plan) (job (xkcd site base) words numbered_site)

abbrev skipped : Run Database
skipped = record (started 1 one_row) { next = 2 }

abbrev shut : Run Database
shut = record skipped { closed = true }

abbrev left : Run Database
left = record shut { workers = gone ∷ [] }

one_le_one : 1 ≤ 1
one_le_one = omega arith

one_lt_two : 1 < 2
one_lt_two = omega arith

skips : OneStep (started 1 one_row) skipped
skips = Step.skip refl one_le_one refl refl

closes : OneStep skipped shut
closes = Step.close refl one_lt_two refl

leaves : OneStep shut left
leaves = Step.leave [] [] refl refl refl refl

run :
    Reach 1 (is_known one_plan) (job (xkcd site base) words numbered_site) (started 1 one_row) left
run = Reach.next (Reach.next (Reach.next Reach.here skips) closes) leaves

left-IsDone : IsDone left
left-IsDone = record { closed = refl; workers = refl }

abbrev after : (Bool × Database) × Result Error (Unit {0})
after = ((false, one_row), ok tt)

one_update : Returns (xkcd site base) words numbered_site (pos 1) false false one_row after
one_update = ran one_plan left refl makes_plan run left-IsDone refl refl

abbrev settings : Config
settings = record {
  address = "localhost:80";
  xkcd_url = "http://s/";
  xkcd_concurrency = pos 1;
  db_address = "localhost:82";
  words_address = "localhost:81";
  broker_address = "localhost:4222";
}

abbrev answers : Outside
answers = record {
  connect_db = λ address. ok tt;
  migrate = ok tt;
  dial_words = λ address. ok tt;
  listen = λ address. ok tt;
  connect_broker = λ address. ok tt;
}

abbrev server : Server
server = record { url = base; concurrency = pos 1 }

starts : Main.run settings answers ≡ ok server
unfolding Main.run
starts = refl

started_fills_example :
    (after.1 ≡ ok tt)
    × ((m : ℕ) × (pos 1 ≡ pos (suc m))
        × ((i : ℕ)
            → row_of (pos i) after.0.1.rows ≡ (
                if leb 1 i && leb i (suc m)
                then or_new
                    (row_of (pos i) one_row.rows)
                    (fetched (xkcd site server.url) words (pos i))
                else row_of (pos i) one_row.rows)))
started_fills_example =
    started_fills settings answers server site site-IsNumbered words (pos 1) one_row after starts
      last_one refl one_update
