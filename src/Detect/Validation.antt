-- ===== src/Detect/Validation.antt =====
-- crates/zonkey-detect/src/validation.rs: the precomposed Vietnamese letters.
use zon_key.Prelude.{ℕ, Bool, ◌&&◌, ◌||◌, leb, ◌==◌}
use zon_key.Text.{Str, any}

-- The ranges of the `matches!`.
unfoldable pub is_vietnamese_letter : ℕ → Bool
is_vietnamese_letter c =
    (leb 0x00c0 c && leb c 0x00c3)
    || ((leb 0x00c8 c && leb c 0x00ca)
        || ((leb 0x00cc c && leb c 0x00cd)
            || ((leb 0x00d2 c && leb c 0x00d5)
                || ((leb 0x00d9 c && leb c 0x00da)
                    || (c == 0x00dd
                        || ((leb 0x00e0 c && leb c 0x00e3)
                            || ((leb 0x00e8 c && leb c 0x00ea)
                                || ((leb 0x00ec c && leb c 0x00ed)
                                    || ((leb 0x00f2 c && leb c 0x00f5)
                                        || ((leb 0x00f9 c && leb c 0x00fa)
                                            || (c == 0x00fd
                                                || ((leb 0x0102 c && leb c 0x0103)
                                                    || ((leb 0x0110 c && leb c 0x0111)
                                                        || ((leb 0x0128 c && leb c 0x0129)
                                                            || ((leb 0x0168 c && leb c 0x0169)
                                                            || ((leb 0x01a0 c && leb c 0x01b0)
                                                            || ((leb 0x1ea0 c
                                                            && leb c 0x1ef9))))))))))))))))))

unfoldable pub is_vietnamese_candidate : Str → Bool
is_vietnamese_candidate text = any is_vietnamese_letter text
