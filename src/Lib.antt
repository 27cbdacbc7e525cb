-- ===== src/Lib.antt =====
-- The host-side Python programs of the OUKITEL RT7 Linux port, with what makes them safe to run
-- against a tablet that holds its owner's data.
--
-- scripts/capture-recovery-baseline.py dumps a fixed set of partitions twice through mtkclient, and
-- validates what was read. Here it is
--   Plan       PARTITIONS, build_plan, validate_read_only_plan, safe_path, build_mtk_command;
--   Gpt        parse_gpt_header (Gpt/Header), parse_gpt_entries (Gpt/Entries), parse_gpt_pair
--              (Gpt/Pair), where each ValueError is a constructor of GptError;
--   Capture    has_nonuniform_content (Capture/Uniform), validate_capture_pass (Capture/Pass),
--              validate_capture (Capture/Both, Capture/Manifest), validate_tool (Capture/Tool), main
--              (Capture/Main). They run in a world of files, printed lines and started commands, over
--              a host (Capture/Host) that resolves paths, hashes and runs processes.
--
-- scripts/probe-mtk-handshake.py finds a MediaTek boot transport on USB and tries its first four
-- bytes. It is the module Handshake: a record of the pyusb
-- operations and of the clock over an unknown bus (Handshake/Usb), one file for each stage, and main
-- (Handshake/Probe).
-- A run returns its outcome and the world: the bus with its clock, the trace of calls, the lines printed.
--
-- scripts/build-test-boot-image.py repacks a boot image with another kernel. It is the module
-- BootImage: Compare (files_equal), Arguments (the lists of mkbootimg arguments), Write
-- (write_idempotent), Tools (the calls of the AOSP tools, over a host, and tempfile), Inputs (what main checks
-- first), Main (main itself), Manifest.
--
-- Python holds what the scripts use of the language and of its library: bytes, text, struct, zlib's
-- CRC-32, UTF-8 and UTF-16, dictionaries in insertion order, resolved paths, a file system as a
-- dictionary from paths to nodes, json.dumps, and hashlib as a record with its documented law. A file
-- is written only where its parent is a directory. Prelude holds lists over the native numbers,
-- equality, results, and the monad Exec, whose state survives a raise.
--
-- Loops. The entry table and the lists are read by structural recursion. files_equal takes one round
-- more than the left file has bytes as fuel, and a round takes a byte at least; reading in blocks
-- takes the length; the wait for a transport takes one round more than its ticks, which is enough
-- for an interval of a tick or more, since a sleep takes its interval at least. An outcome `none` of
-- a loop stands for a lack of fuel.
--
-- Integers of the programs are unbounded; those that are differences of numbers from the disk are ℤ.
-- The clock counts ticks. The text of messages is not modelled where a constructor holds its values.
--
-- Not modelled: argparse; path resolution, git, mtkclient, the AOSP tools, SHA-256 and pyusb, which
-- are parameters; the shell and PowerShell scripts, the containers, patches and configuration.
pub mod Prelude
pub mod Python
pub mod Gpt
pub mod Plan
pub mod Handshake
pub mod Capture
pub mod BootImage
pub mod Tests
