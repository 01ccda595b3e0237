-- ===== src/Stats/Window.antt =====
-- `IntWindow` of stats/window.go. Indices are uint32, samples are int64; a sample is only moved, so
-- it is any number. A read or a write out of range is a panic, `none`.
pub mod Recent
use developer_gateway.Prelude.{
  ℕ, ◌+◌, ◌-◌, ◌*◌, ◌%◌, ◌^◌, Option, none, some, List, ◌++◌, length, set, take, drop, replicate,
  ltb, leb, ◌&&◌, ◌==◌, if◌then◌else◌,
}

pub record IntWindow : Type 0 where
  pub offset : ℕ
  pub end : ℕ
  pub max_samples : ℕ
  pub window : List ℕ

-- `NewIntWindow`: `maxSamples<<1` on uint32.
unfoldable pub new_int_window : ℕ → IntWindow
new_int_window max_samples = record {
  offset = 0;
  end = 0;
  max_samples = max_samples;
  window = replicate ((max_samples * 2) % 2 ^ 32) 0;
}

-- What `Add` does once `w.end` is at the end of the window: the copy writes over the beginning only.
unfoldable pub wrap_around : IntWindow → IntWindow
wrap_around w =
    let winlen = length w.window in
    let index = (winlen + 2 ^ 32 - w.max_samples) % 2 ^ 32 in
    if w.end == winlen % 2 ^ 32
    then record w {
      window = drop index w.window ++ drop (length (drop index w.window)) w.window;
      offset = 0;
      end = w.max_samples;
    }
    else w

unfoldable pub recalculate : IntWindow → IntWindow
recalculate w =
    if ltb w.max_samples ((w.end + 2 ^ 32 - w.offset) % 2 ^ 32)
    then record w { offset = (w.end + 2 ^ 32 - w.max_samples) % 2 ^ 32 }
    else w

unfoldable pub add : IntWindow → ℕ → Option IntWindow
add w sample =
    if ltb w.end (length w.window)
    then some (
        recalculate (
          wrap_around
            (record w { window = set w.window w.end sample; end = (w.end + 1) % 2 ^ 32 })))
    else none

-- `w.window[w.offset:w.end]`, which `Stats` averages.
unfoldable pub samples : IntWindow → Option (List ℕ)
samples w =
    if leb w.offset w.end && leb w.end (length w.window)
    then some (drop w.offset (take w.end w.window))
    else none
