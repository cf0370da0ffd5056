-- ===== src/Tests.antt =====
-- Runs of the modelled code on small inputs, and the theorems at inputs that meet their hypotheses.
mod KeyedVectors
mod RegisterBits
mod Scopes
mod Drivers
mod Cpuid
mod Contexts
mod SymbolTables
mod BitBuffers
mod LanguageTypes
mod Variables
mod Syntax
mod Memory
mod Datatypes
mod Paths
mod Fields
