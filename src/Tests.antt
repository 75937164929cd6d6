-- ===== src/Tests.antt =====
-- Small inputs of the code of src/, run, and the theorems applied to them.
mod ZipTests
mod BlockTests
mod HashTests
mod KeyTests
mod StoreTests
mod Pkcs12Tests
mod PlanTests
mod LayoutTests
