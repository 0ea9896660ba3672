-- ===== src/Shop.antt =====
-- The shop of test-container/rootfs/juice-shop: wallets, cards, addresses, delivery methods, basket
-- items, coupons, deluxe membership, orders, their history and tracking.
pub mod Tables
pub mod Wallet
pub mod Owned
pub mod Basket
pub mod Coupon
pub mod Deluxe
pub mod Order
pub mod History
pub mod Tracking
