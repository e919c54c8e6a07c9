-- ===== src/Interrupts/Tests.antt =====
-- The theorems on interrupts where two sources are requested.
use pockiva.Interrupts.{InterruptRegisters}

abbrev two_requested : InterruptRegisters
two_requested = record { enable = 0x04; flags = 0x06 }
