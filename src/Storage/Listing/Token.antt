-- ===== src/Storage/Listing/Token.antt =====
-- The page tokens of `ListInstances` (internal/storage/sqlite.go).
use Prim.Native.Char.{char, code}
use Prim.Native.String.append
use romancy.Base.{
  String, ◌<>◌, ℕ, ◌≡◌, refl, ap, ◌∙◌, Bool, false, some, ◌==◌, ◌||◌, arith, has_prefix,
}
use romancy.Storage.Models.{WorkflowInstance}
use romancy.Storage.Listing.{Texts, parse_token, split_token, cursor_of, token_after}

abbrev pub has_bar : String → Bool
has_bar String.[] = false
has_bar (String.◌∷◌ c s) = (code c == b'|') || has_bar s

pub bars :
    (id : String) → "" <> ("||" <> id) ≡ String.◌∷◌ (char 124 tt) (String.◌∷◌ (char 124 tt) id)
bars id =
    append.nil ("||" <> id)
    ∙ append.cons (char 124 tt) "|" id
    ∙ ap (String.◌∷◌ (char 124 tt))
        (append.cons (char 124 tt) "" id ∙ ap (String.◌∷◌ (char 124 tt)) (append.nil id))

pub split-token :
    (time id : String) → has_bar time ≡ false → split_token (time <> ("||" <> id)) ≡ some (time, id)
unfolding split_token has_prefix
split-token String.[] id h = rw (bars id) refl
split-token (String.◌∷◌ c s) id h =
    let other : (b'|' == code c) ≡ false = ground arith in
    rw (append.cons c s ("||" <> id), other, split-token s id (ground arith)) refl

-- The times in tokens: a formatted time is parsed to itself and has no bar.
pub record ReadsTimes (texts : Texts) : Type 0 where
  pub parse-format : (t : ℕ) → texts.parse (texts.format t) ≡ some t
  pub format-has_bar : (t : ℕ) → has_bar (texts.format t) ≡ false

pub parse-token :
    (texts : Texts) (r : WorkflowInstance)
    → ReadsTimes texts
    → parse_token texts (token_after texts (some r)) ≡ some (r.started_at, r.instance_id)
unfolding parse_token
parse-token texts r times =
    ap (cursor_of texts)
      (split-token (texts.format r.started_at) r.instance_id (times.format-has_bar r.started_at))
    ∙ rw (times.parse-format r.started_at) refl
