-- ===== src/Debts.antt =====
-- backend/src/debt-simplification: who should pay whom, so that everybody's debts are settled.
mod Entity
mod Balancing
mod Greedy
mod Graph
mod Totals
mod Order
mod Rounds
mod Conservation
mod Assets
mod Ending
mod Links
mod Store
mod Caching
mod Cached
mod Examples
