-- ===== src/Tests.antt =====
-- The development at concrete inputs: an instance of each theorem, and runs of the definitions.
mod Pricing
mod Cells
mod Prices
mod Ensembles
mod Searches
mod Data
mod Training
mod Records
mod Sweeps
mod Quantiles
mod Rounds
mod Fitting
mod Artifacts
