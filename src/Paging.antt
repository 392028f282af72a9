-- ===== src/Paging.antt =====
-- backend/src/common/pagination: pages by cursor.
mod Paginate
mod Order
mod Walk
mod Examples
