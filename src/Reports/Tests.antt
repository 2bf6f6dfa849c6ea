-- ===== src/Reports/Tests.antt =====
-- A run of the error ring, and a witness.
use power_monitoring.Base.{◌≡◌, refl, some, List, [], ◌∷◌, get_elem?}
use power_monitoring.Reports.{no_reports, report_of, report_error, pop_pending_error}
use power_monitoring.Reports.Queue.{
  pending, Op, report, pop, perform_all, perform_all_queue, error_ring-refines,
}

-- Nine reports, of which the first is lost, then a pop.
abbrev nine : List Op
nine =
    report 1 [] 1 []
    ∷ report 2 [] 2 []
    ∷ report 3 [] 3 []
    ∷ report 4 [] 4 []
    ∷ report 5 [] 5 []
    ∷ report 6 [] 6 []
    ∷ report 7 [] 7 []
    ∷ report 8 [] 8 []
    ∷ report 9 [] 9 []
    ∷ pop
    ∷ []

oldest_lost : get_elem? (perform_all nine no_reports).0 9 ≡ some (some (report_of 2 [] 2 []))
unfolding report_error pop_pending_error
oldest_lost = refl

error_ring-refines_example :
    ((perform_all nine no_reports).0 ≡ (perform_all_queue nine []).0)
    × (pending (perform_all nine no_reports).1 ≡ (perform_all_queue nine []).1)
error_ring-refines_example = error_ring-refines nine
