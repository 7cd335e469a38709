-- ===== src/Logger/Threads.antt =====
-- The lines of Logger.cpp, from one thread and from two.
use my_testserver.Prelude.{List, [], ◌∷◌, ◌++◌, take, Bytes, codes}
use my_testserver.Prelude.Int.{pos, to_string}
use my_testserver.Logger.{LogLevel, Logger, level_str, Operand, shows, shows_level, Access, Use}

-- A line as it is meant to be.
abbrev pub line_of : LogLevel → Use → Bytes
line_of level u =
    u.now
    ++ (codes " "
        ++ (level_str level
            ++ (codes " "
                ++ (u.file
                    ++ (codes ":"
                        ++ (to_string (pos u.line)
                            ++ (codes " - " ++ (take 1023 u.formatted ++ codes "\n"))))))))

abbrev shown : LogLevel → Operand → Bytes
shown level (shows t) = t
shown level shows_level = level_str level

abbrev all_shown : LogLevel → List Operand → Bytes
all_shown level [] = []
all_shown level (o ∷ more) = shown level o ++ all_shown level more

-- The accesses of two threads, each in its own order.
pub data Merges : List Access → List Access → List Access → Type 0 where
  none_left : Merges [] [] []
  first_goes : {a : Access} {xs ys zs : List Access} → Merges xs ys zs → Merges (a ∷ xs) ys (a ∷ zs)
  second_goes :
      {a : Access} {xs ys zs : List Access} → Merges xs ys zs → Merges xs (a ∷ ys) (a ∷ zs)
