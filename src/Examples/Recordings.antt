-- ===== src/Examples/Recordings.antt =====
-- Files and directories of multicat at concrete packets.
use multicat_supervisor.Base.{◌≡◌, some, [], ◌∷◌, arith, length, ◌++◌}
use multicat_supervisor.Multicat.{Input}
use multicat_supervisor.Multicat.Files.{file_init_read}
use multicat_supervisor.Multicat.RoundTrip.{
  Packet, write_packets, new_output, play, stored_of, play-write_packets,
}
use multicat_supervisor.Multicat.Rotation.{
  record_packets, new_directory, stored_at, record_packets-in_file,
}

abbrev first : Packet
first = record { stc = 40; payload = 1 ∷ 2 ∷ [] }

abbrev second : Packet
second = record { stc = 120; payload = 3 ∷ 4 ∷ [] }

abbrev third : Packet
third = record { stc = 60; payload = 5 ∷ 6 ∷ [] }

play-write_packets_example :
    (st : Input) × (file_init_read
        (write_packets ((first ∷ []) ++ (second ∷ third ∷ [])) new_output).file
        2
        (length (first ∷ []))
        0
      ≡ some st)
    × (play (length (first ∷ second ∷ third ∷ [])) 2 st ≡ some (second ∷ third ∷ []))
play-write_packets_example =
    play-write_packets 2 (first ∷ []) (second ∷ third ∷ []) (omega arith) (omega arith)

-- The third packet goes back to the first file.
record_packets-in_file_example :
    stored_at ((record_packets 0 100 2 (first ∷ second ∷ third ∷ []) new_directory).dir 0)
    ≡ stored_of (first ∷ third ∷ [])
record_packets-in_file_example =
    record_packets-in_file 0 100 2 (first ∷ second ∷ third ∷ []) 0 (omega arith) (omega arith)
      (omega arith)
