-- ===== src/Chunker/Source.antt =====
-- The reader that a chunker takes its bytes from.
use desync.Common.{
  ℕ, ◌-◌, List, [], ◌++◌, length, take, drop, leb, ◌==◌, Option, none, some, if◌then◌else◌,
}

-- What the calls of `Read` will give: a piece of data, of which a call takes what fits its buffer,
-- and at last io.EOF, alone or with the last data, or another error.
pub data Source : Type 0 where
  piece : List ℕ → Source → Source
  last : List ℕ → Source
  eof : Source
  failed : ℕ → Source

pub data ReadError : Type 0 where
  end_of_file : ReadError
  broken : ℕ → ReadError

pub record Filled : Type 0 where
  pub bytes : List ℕ
  pub error : Option ReadError
  pub source : Source

-- `b` is read in front of what is read behind it.
unfoldable pub before : List ℕ → Filled → Filled
before b f = record f { bytes = b ++ f.bytes }

-- The loop of `fillBuffer`: reads until `room` bytes are read or there is an error. Empty reads with
-- no error are tried again.
unfoldable pub fill : ℕ → Source → Filled
unfolding before
fill room eof =
    if room == 0
    then record { bytes = []; error = none; source = eof }
    else record { bytes = []; error = some end_of_file; source = eof }
fill room (failed e) =
    if room == 0
    then record { bytes = []; error = none; source = failed e }
    else record { bytes = []; error = some (broken e); source = failed e }
fill room (last b) =
    if room == 0
    then record { bytes = []; error = none; source = last b }
    else if leb (length b) room
    then record { bytes = b; error = some end_of_file; source = eof }
    else record { bytes = take room b; error = none; source = last (drop room b) }
fill room (piece b s) =
    let more = before b (fill (room - length b) s) in
    if room == 0
    then record { bytes = []; error = none; source = piece b s }
    else if leb (length b) room
    then more
    else record { bytes = take room b; error = none; source = piece (drop room b) s }

-- All the bytes that the source has, up to its end or its error.
unfoldable pub contents : Source → List ℕ
contents (piece b s) = b ++ contents s
contents (last b) = b
contents eof = []
contents (failed e) = []
