-- ===== src/Collect/Scanners.antt =====
-- RTregister_root_scanner of rtgc.c and the calls of the scanners.
use rtgc.Common.{ℕ, ◌≡◌, refl, none, Run, ok, stopped, fault, ◌>>=◌}
use rtgc.Heap.{Heap}
use rtgc.Collect.{Roots, register_root_scanner, run_scanners}

-- Where no root scanner is registered, one registration makes the scan of the roots call that
-- scanner; after a second one the scan calls only the second scanner and then, if that returns,
-- a null pointer.
pub register_root_scanner_lost :
    (r : Roots) (first second : Heap → Run Heap) (h : Heap)
    → r.total_root_scanners ≡ 0
    → ((i : ℕ) → r.root_scanners i ≡ none)
    → (let r1 = register_root_scanner first r in
        run_scanners r1.total_root_scanners 0 r1.root_scanners h ≡ (first h >>= λ h'. ok h'))
      × (let r2 = register_root_scanner second (register_root_scanner first r) in
          run_scanners r2.total_root_scanners 0 r2.root_scanners h
          ≡ (second h >>= λ h'. stopped fault))
unfolding register_root_scanner run_scanners
register_root_scanner_lost r first second h e n = (rw e refl, rw (e, n 1) refl)
