-- ===== src/Features.antt =====
-- rtb-bid-model/src/features.py: from raw impression logs to encoded rows. `Parse` is
-- `parse_chunked`, `Encode` the vocabularies and the tag encoding, `Engineered` is
-- `basic_features_inplace`, `Passes` the training split of `main`, and `Pipeline` its passes B and C.
pub mod Parse
pub mod Encode
pub mod Tags
pub mod Passes
pub mod Engineered
pub mod Pipeline
