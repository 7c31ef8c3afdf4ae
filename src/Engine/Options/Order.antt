-- ===== src/Engine/Options/Order.antt =====
-- Where an option stands among the others does not matter.
use flicker.Prelude.{List}
