-- ===== src/Utils.antt =====
-- pkg/utils: text helpers of the standard library that the source calls, the account addresses, and random
-- orders and texts.
pub mod Text
pub mod Address
pub mod Random
