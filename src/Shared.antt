-- ===== src/Shared.antt =====
-- web/src/components/shared: the small components that the pages are made of. The state of a
-- component is an argument of its view.
pub mod HashText
pub mod AddressLink
pub mod Badges
pub mod ValueDisplay
pub mod RawData
pub mod GasInfo
pub mod InputData
