-- ===== src/Overlay/Saved.antt =====
-- packages/core/src/overlay/overlay.ts: what `snapshot` stores of a well-formed overlay.
use remotish.Overlay.{Overlay}
