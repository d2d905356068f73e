-- ===== src/Storage/Listing/Paged.antt =====
-- All pages of a listing: `ListInstances` of internal/storage/sqlite.go, called again with the token
-- of the page before until there is no more.
use romancy.Base.{
  String, ℕ, zero, suc, ◌<◌, ◌≡◌, refl, sym, ap, subst, ◌∙◌, Option, some, List, [], ◌∷◌, ◌++◌,
  arith, append_assoc, map, select, take, drop, length, order_rows, length-drop, length-select,
  length-order_rows, select-true, IsOrdered, AreApart, order-IsOrdered, order-select, select-before,
  select-select,
}
use native.Mathlib.Decide.{dec_lt}
use romancy.Errors.{Result, ok}
use romancy.Storage.Models.{WorkflowInstance}
use romancy.Storage.World.{World, query, pure, ◌>>=◌, statement}
use romancy.Storage.Instances.{limit_or}
use romancy.Storage.Instances.Rows.{DistinctKeys}
use romancy.Storage.Listing.{
  Texts, ListInstancesOptions, Condition, Cursor, listed, stands_before, follows, parse_token,
  split_token, is_listed, listed_rows, token_after, page_of, build_filter_query, list_where,
  list_instances,
}
use romancy.Storage.Listing.Ordered.{
  stands_before_irrefl, stands_before_trans, DistinctKeys-AreApart, AreApart-select,
}
use romancy.Storage.Listing.Token.{ReadsTimes, parse-token}
use romancy.Storage.Listing.Pages.{
  Turn, turn, pages_after, list_pages, after_last, after-Turn, limit_suc,
}

abbrev still : World → World
still w = record w { faults = [] }

module _ (texts : Texts) (opts : ListInstancesOptions) (conditions : List Condition)
    (w : World) where
  abbrev matching : List WorkflowInstance
  matching = select (is_listed texts opts conditions) w.db.instances

  abbrev in_order : List WorkflowInstance
  in_order = order_rows stands_before matching

  abbrev page_size : ℕ
  page_size = limit_or 50 opts.limit

  abbrev on_page : String → ListInstancesOptions
  on_page token = record opts { page_token = token }

  module _ (built : build_filter_query texts opts.input_filters ≡ ok conditions)
      (keys : DistinctKeys w.db.instances) where
    apart : AreApart stands_before matching
    apart =
        AreApart-select (is_listed texts opts conditions) w.db.instances
          (DistinctKeys-AreApart w.db.instances keys)

    rows_below :
        (token : String) (below : List WorkflowInstance)
        → select (follows (parse_token texts token)) in_order ≡ below
        → listed_rows texts (on_page token) conditions page_size w.db.instances
          ≡ take (suc page_size) below
    rows_below token below e = ap (take (suc page_size)) (
        ap (order_rows stands_before) (
          sym (
            select-select (is_listed texts opts conditions) (follows (parse_token texts token))
              w.db.instances))
        ∙ order-select stands_before stands_before_trans (follows (parse_token texts token))
            matching apart
        ∙ e)

    page_below :
        (token : String) (below : List WorkflowInstance)
        → select (follows (parse_token texts token)) in_order ≡ below
        → list_instances texts (on_page token) (still w)
          ≡ (ok (page_of texts page_size (take (suc page_size) below)), still w)
    unfolding list_instances ◌>>=◌ query statement pure
    page_below token below e =
        ap (λ (c : Result (List Condition)). list_where texts (on_page token) c (still w)) built
        ∙ ap (λ (rows : List WorkflowInstance). (ok (page_of texts page_size rows), still w))
            (rows_below token below e)

    -- The token of a row selects what stands below it.
    below_token :
        (front below : List WorkflowInstance) (r : WorkflowInstance)
        → ReadsTimes texts
        → in_order ≡ front ++ r ∷ below
        → select (follows (parse_token texts (token_after texts (some r)))) in_order ≡ below
    below_token front below r times whole =
        ap (λ (c : Option Cursor). select (follows c) in_order) (parse-token texts r times)
        ∙ ap (select (stands_before r)) whole
        ∙ select-before stands_before stands_before_trans stands_before_irrefl front r below (
            subst (IsOrdered stands_before) whole
              (order-IsOrdered stands_before stands_before_trans matching apart))

    split_at :
        (above below : List WorkflowInstance) (k : ℕ) (t : Turn k below)
        → in_order ≡ above ++ below
        → in_order ≡ (above ++ t.front) ++ t.row ∷ drop (suc k) below
    split_at above below k t whole =
        whole
        ∙ ap (◌++◌ above) t.whole
        ∙ sym (append_assoc above t.front (t.row ∷ drop (suc k) below))

    pages_below :
        (fuel : ℕ) (token : String) (above below : List WorkflowInstance)
        → ReadsTimes texts
        → in_order ≡ above ++ below
        → select (follows (parse_token texts token)) in_order ≡ below
        → length below < fuel
        → list_pages texts fuel opts token (still w) ≡ some (ok (map listed below))
    unfolding list_pages
    pages_below zero token above below times whole e enough = absurd (omega arith)
    pages_below (suc fuel) token above below times whole e enough =
        let (k, size) = limit_suc opts.limit in
        let again = list_pages texts fuel opts in
        let goes_on : suc k < length below
            → pages_after again (ok (page_of texts (suc k) (take (suc (suc k)) below)), still w)
              ≡ some (ok (map listed below)) =
          λ more.
            let t = turn k below (omega arith) in
            let split = split_at above below k t whole in
            after-Turn texts again (still w) below k t more (
              pages_below fuel (token_after texts (some t.row)) ((above ++ t.front) ++ t.row ∷ [])
                (drop (suc k) below) times
                (split ∙ sym (append_assoc (above ++ t.front) (t.row ∷ []) (drop (suc k) below)))
                (below_token (above ++ t.front) (drop (suc k) below) t.row times split)
                (omega (arith, length-drop (suc k) below))) in
        ap (pages_after again) (page_below token below e)
        ∙ subst
            (λ (n : ℕ).
              pages_after again (ok (page_of texts n (take (suc n) below)), still w)
              ≡ some (ok (map listed below)))
            (sym size)
            (elim (dec_lt (suc k) (length below)) [
              | yes more ↦ goes_on more
              | no last ↦ after_last texts again (still w) below (suc k) (omega arith)
            ])

-- A listing that is read page by page is complete: the driver does not fail and the tables stay as
-- they are, no two rows have one instance id, the filters on the input have paths, and a time in a
-- token is parsed to what was formatted and has no bar. Then the pages, from the first one on and
-- each with the token of the one before until there is no more, are together the matching instances,
-- each of them once, the latest first, and of those that started in one second the greatest id
-- first. A round more than there are instances is enough.
pub list_pages-listed :
    (texts : Texts) (opts : ListInstancesOptions) (conditions : List Condition) (w : World)
    → w.faults ≡ []
    → DistinctKeys w.db.instances
    → build_filter_query texts opts.input_filters ≡ ok conditions
    → ReadsTimes texts
    → list_pages texts (suc (length w.db.instances)) opts "" w
      ≡ some (
          ok (
            map listed
              (order_rows stands_before (select (is_listed texts opts conditions) w.db.instances))))
unfolding parse_token split_token
list_pages-listed texts opts conditions w f keys built times =
    subst
      (λ fs.
        list_pages texts (suc (length w.db.instances)) opts "" (record w { faults = fs })
        ≡ some (ok (map listed (in_order texts opts conditions w))))
      (sym f)
      (pages_below texts opts conditions w built keys (suc (length w.db.instances)) "" []
        (in_order texts opts conditions w) times refl
        (select-true (in_order texts opts conditions w))
        (omega (
          arith,
          length-order_rows stands_before (matching texts opts conditions w),
          length-select (is_listed texts opts conditions) w.db.instances,
        )))
