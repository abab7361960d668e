-- ===== src/Tests.antt =====
-- Runs of the model on small inputs, and the theorems at concrete inputs.
mod RangeTests
mod MemblockTests
mod BuddyTests
mod FreeTests
mod IrqTests
mod FallbackTests
mod WatermarkTests
mod FlowTests
mod PicTests
mod ZoneTests
mod E820Tests
mod ZoneListTests
mod SanitizeTests
mod SlubTests
