-- ===== src/Web/Status/Elapsed.antt =====
-- How the page of /status.html depends on the elapsed time.
use mathlib.Core.List.{[]}
use helpcovid.Database.Connection.{ProcessInfo}
use helpcovid.Web.Status.{double_member, json_status_members, Member, Doubles, Snapshot}
use helpcovid.Web.Status.Page.{
  html_status_text, status_head, status_build, status_cpu, status_elapsed, status_per_request,
  status_process, status_tail, item,
}
use helpcovid.Prelude.{
  if◌then◌else◌, ◌∷◌, some, none, equal, Option, ℕ, List, ◌++◌, ◌≡◌, refl, append_assoc, codes,
  Bytes,
}

-- The pages of two snapshots that differ in the monotonic clock.
module _ {ℓ} {F : Type ℓ} (doubles : Doubles F) (now : Snapshot F) (t : ℕ → F) where
  abbrev later : Snapshot F
  later = record now { monotonic_time = t }

  same_cpu : status_cpu doubles later ≡ status_cpu doubles now
  unfolding status_cpu
  same_cpu = refl

-- The member of an object.
abbrev pub member_of {ℓ} : {F : Type ℓ} → Bytes → List (Bytes × Member F) → Option (Member F)
member_of key [] = none
member_of key ((name, value) ∷ rest) = if equal key name then some value else member_of key rest

-- The elapsed time per request in the two pages: in /status.json it is the elapsed time, by the second
-- reading of the monotonic clock, over the number of requests; in the page of `hcv_web_get_html_status`
-- the item of this name gives the CPU time, by the third reading of the CPU's clock, in milliseconds,
-- over the number of requests, and only the item of the total elapsed time, two items before it, depends
-- on the monotonic clock.
pub html_status_text-json_status_members {ℓ} :
    {F : Type ℓ} (doubles : Doubles F) (weburl : Bytes) (proc : ProcessInfo) (now : Snapshot F)
    (loaded : List Bytes) (reqcnt : ℕ)
    → ((t : ℕ → F)
        → member_of
            (codes "elapsed_time_per_request")
            (json_status_members doubles proc (record now { monotonic_time = t }) loaded reqcnt)
          ≡ some (
              double_member (
                doubles.over
                  (doubles.minus (t 1) (now.startmonotonictime))
                  (doubles.of_long reqcnt))))
      × ((before : Bytes) × (after : Bytes) × ((t : ℕ → F)
            → html_status_text doubles weburl proc (record now { monotonic_time = t }) loaded reqcnt
              ≡ before
                ++ (item
                      (codes "<li>total elapsed time: ")
                      (doubles.text (doubles.minus (t 0) (now.startmonotonictime)))
                      (codes " (seconds)")
                    ++ (item
                          (codes "<li>CPU time per request: ")
                          (doubles.text (
                            doubles.over
                              (doubles.times
                                (doubles.million)
                                (doubles.minus (now.cpu_time 1) (now.startcputime)))
                              (doubles.of_long reqcnt)))
                          (codes " (" ++ (194 ∷ 181 ∷ codes "s)"))
                        ++ (item
                              (codes "<li>elapsed time per request: ")
                              (doubles.text (
                                doubles.over
                                  (doubles.times
                                    (doubles.thousand)
                                    (doubles.minus (now.cpu_time 2) (now.startcputime)))
                                  (doubles.of_long reqcnt)))
                              (codes " (ms)")
                            ++ after)))))
unfolding html_status_text status_elapsed status_per_request json_status_members equal
html_status_text-json_status_members doubles weburl proc now loaded reqcnt = (
  λ t. refl,
  (
    status_head weburl ++ (status_build proc ++ status_cpu doubles now),
    status_process doubles now ++ status_tail weburl proc loaded reqcnt,
    λ t. simp (append_assoc, same_cpu doubles now t),
  ),
)
