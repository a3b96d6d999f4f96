-- ===== src/Tables.antt =====
-- The constant tables of src/csstables.h and the facts about them that the proofs use.
pub mod Css
pub mod Crypt
pub mod Laws
