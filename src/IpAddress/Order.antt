-- ===== src/IpAddress/Order.antt =====
-- The order of IP addresses.
use mavtables.Prelude.{◌<◌, ◌≡◌, true, not, arith, ◌↔◌, ◌⊎◌, ◌&&◌}
use mavtables.IpAddress.{IpAddress, eq, ne, lt, gt, le, ge}

-- The order is by the address first and the port second, and the six comparisons agree.
pub ip_comparisons-agree :
    (a b : IpAddress)
    → (ne a b ≡ not (eq a b))
      × (gt a b ≡ lt b a)
      × (le a b ≡ not (lt b a))
      × (ge a b ≡ not (lt a b))
      × (eq a b ≡ (not (lt a b) && not (lt b a)))
      × ((lt a b ≡ true)
          ↔ ((a.address < b.address) ⊎ ((a.address ≡ b.address) × (a.port < b.port))))
unfolding ne eq gt lt le ge
ip_comparisons-agree a b = (
  ground arith,
  ground arith,
  ground arith,
  ground arith,
  ground arith,
  (λ h. ground arith, λ h. ground arith),
)
