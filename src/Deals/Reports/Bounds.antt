-- ===== src/Deals/Reports/Bounds.antt =====
-- What the statistics say of the table.
use deals_server.Prelude.{
  ℕ, ◌+◌, ◌%◌, ◌^◌, ◌≤◌, ◌<◌, ◌≡◌, inl, inr, List, [], ◌∷◌, arith, ltb, if◌then◌else◌, length,
}
use deals_server.Deals.Info.{DealInfo}
use deals_server.Deals.Info.Last.{Among}
use deals_server.Deals.Reports.{Stats, no_stats, count_element, stats_of}

larger : (m n : ℕ) → (m ≤ (if ltb m n then n else m)) × (n ≤ (if ltb m n then n else m))
larger m n = ground arith

smaller : (m n : ℕ) → ((if ltb n m then n else m) ≤ m) × ((if ltb n m then n else m) ≤ n)
smaller m n = ground arith

-- The bounds only get wider.
widens :
    (s : Stats) (ds : List DealInfo)
    → (s.latest ≤ (stats_of s ds).latest) × ((stats_of s ds).earliest ≤ s.earliest)
unfolding stats_of count_element
widens s [] = (omega arith, omega arith)
widens s (d ∷ ds) =
    let (above, below) = widens (count_element s d) ds in
    let a = larger s.latest d.timestamp in
    let b = smaller s.earliest d.timestamp in (omega (arith, above, a.0), omega (arith, below, b.0))

counts :
    (s : Stats) (ds : List DealInfo)
    → s.elements + length ds < 2 ^ 64
    → (stats_of s ds).elements ≡ s.elements + length ds
unfolding stats_of count_element
counts s [] h = omega arith
counts s (d ∷ ds) h =
    let small : (s.elements + 1) % 2 ^ 64 ≡ s.elements + 1 = omega arith in
    let rest = counts (count_element s d) ds (omega (arith, small)) in omega (arith, rest, small)

covers :
    (s : Stats) (ds : List DealInfo) (d : DealInfo)
    → Among d ds
    → ((stats_of s ds).earliest ≤ d.timestamp) × (d.timestamp ≤ (stats_of s ds).latest)
unfolding stats_of count_element
covers s [] d a = absurd a
covers s (x ∷ ds) d (inl e) =
    let (above, below) = widens (count_element s x) ds in
    let a = larger s.latest x.timestamp in
    let b = smaller s.earliest x.timestamp in
    rw e (omega (arith, below, b.1), omega (arith, above, a.1))
covers s (x ∷ ds) d (inr a) = covers (count_element s x) ds d a

-- The statistics of a table of fewer than 2 ^ 64 deals count its deals, and every timestamp is from
-- the minimum to the maximum that they give.
pub stats_of-covers :
    (ds : List DealInfo)
    → length ds < 2 ^ 64
    → ((stats_of no_stats ds).elements ≡ length ds)
      × ((d : DealInfo)
          → Among d ds
          → ((stats_of no_stats ds).earliest ≤ d.timestamp)
            × (d.timestamp ≤ (stats_of no_stats ds).latest))
stats_of-covers ds h =
    let e = counts no_stats ds (omega arith) in (omega (arith, e), covers no_stats ds)
