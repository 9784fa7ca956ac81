-- ===== src/Workflow/Services/Executions/Pages.antt =====
-- The pages of `list_executions` and the counts of `get_execution_stats`
-- (app/services/execution_service.py).
use python_backend_projects.Base.{
  take_add, ℕ, zero, suc, ◌+◌, ◌-◌, ◌*◌, min, max, ◌≡◌, ap, sym, ◌∙◌, String, List, [], ◌∷◌, ◌++◌,
  length, take, drop, keep, arith, ◌==◌,
}
use python_backend_projects.Base.Int.{at_least_one, ℤ, pos}
use python_backend_projects.Base.Dict.{Dict, insert, lookup-insert}
use python_backend_projects.Workflow.Models.{WorkflowExecution}
use python_backend_projects.Workflow.Services.Executions.{page_of, count_of, count_status}

module _ {A : Type 0} where
  -- the items of the pages 1 to n, one after the other
  abbrev pub first_pages : List A → ℕ → ℤ → List A
  first_pages rows zero size = []
  first_pages rows (suc n) size = first_pages rows n size ++ (page_of rows (pos (suc n)) size).items

  -- The pages follow each other without a gap or an overlap: the first n of them hold the first
  -- n * size rows, where size is clamped to 1..100.
  pub first_pages-take :
      (rows : List A) (n : ℕ) (size : ℤ)
      → first_pages rows n size ≡ take (n * min 100 (at_least_one size)) rows
  unfolding page_of
  first_pages-take rows zero size =
      let none_yet : 0 ≡ 0 * min 100 (at_least_one size) = omega arith in
      ap (λ k. take k rows) none_yet
  first_pages-take rows (suc n) size =
      let m = min 100 (at_least_one size) in
      let count : n * m + m ≡ suc n * m = grind arith in
      let start : max 1 (suc n) - 1 ≡ n = omega arith in
      ap (λ l. l ++ (page_of rows (pos (suc n)) size).items) (first_pages-take rows n size)
      ∙ ap (λ k. take (n * m) rows ++ take m (drop (k * m) rows)) start
      ∙ sym (take_add (n * m) m rows)
      ∙ ap (λ k. take k rows) (grind arith)

-- Each status is counted as often as a row has it.
pub count_status-length :
    (rows : List WorkflowExecution) (d : Dict ℕ) (status : String)
    → count_of status (count_status rows d)
      ≡ count_of status d + length (keep (λ e. status == e.status) rows)
unfolding count_status
count_status-length [] d status = omega arith
count_status-length (e ∷ rows) d status = ground (
  arith,
  lookup-insert e.status status (count_of e.status d + 1) d,
  count_status-length rows (insert e.status (count_of e.status d + 1) d) status,
)
