-- ===== src/Lib.antt =====
-- sloader, a dynamic loader for x86-64 Linux, as definitions, and what holds of them.
--
-- sloader starts a program in its own address space. `main` (sloader.cc) finds the program's file,
-- makes the one DynLoader (dyn_loader.cc) and runs it: LoadDependingLibs loads the program and, from a
-- queue, the libraries that it needs; each file becomes an ELFBinary, whose Load maps and copies the
-- segments and parses the dynamic section; Relocate writes the addresses that the relocations ask for,
-- where names of libc lead to the loader's own libc by a table (libc_mapping.cc); Execute calls the
-- initialisers, builds the initial stack, fills the thread-local blocks in an array of its own
-- (tls_secure.cc) and jumps to the entry point. A running program reaches the loader through dlopen and
-- dlsym (sloader_dl.cc). exec_loader.h has an earlier loader for static programs.
--
-- The files, and the code they are about:
--
-- Base, Result: numbers, lists, strings and 64-bit words; a call returns a value or a Failure, which
-- is a failed CHECK (utils.h), an abort, undefined behaviour or spent fuel. Result.Without,
-- Result.Ensures and Result.Ends are the rules for failures that do not happen, for postconditions
-- and for how a call ends.
-- Memory: byte-addressed memory, reads and writes of words, memcpy, memset and C strings.
-- Elf: the structures and constants of <elf.h>.
-- Utils: SplitWith and the Show functions of utils.cc, HexString of utils.h.
-- System: the kernel, the environment and the file system as a record of functions.
-- Binary: the class ELFBinary; Binary.Dynamic is ParseDynamic, Binary.Load is Load.
-- Library: FindLibrary and read_ldsoconf of dyn_loader.cc.
-- Loader: the class DynLoader and LoadDependingLibs; Loader.Symbols is SearchSym and TLSSymOffset,
-- Loader.Relocate is Relocate, Loader.Queue compares the queue with a dependency graph and with the
-- steps of a history.
-- Execute: DynLoader::Execute in parts, Init for the initialisers, Stack for the auxiliary vector, the
-- stack and ExecuteCore, Tls for the thread-local blocks; Execute.Run is the whole, with
-- DynLoader::Run, InitializeDynLoader and GetDynLoader.
-- Dl: sloader_dl.cc; Dl.States is the loader over time, from the start of the program through calls of
-- dlopen. Main: sloader.cc. ExecLoader: exec_loader.h.
-- LibcMapping: libc_mapping.cc; Table1 to Table8 are the entries of sloader_libc_map in order, Calls is
-- what a call of each of the loader's own functions leads to.
-- Examples: a small system, small binaries, and the theorems applied to them.
--
-- State is passed along: the members of a class are a record, the address space is a function from
-- addresses to bytes, and the mappings are a list. An address or a word is a natural number, and
-- arithmetic that can wrap in the code is reduced modulo 2^64 where it can.
--
-- Loops that no argument bounds by its form take fuel. SplitWith gets one round more than the text has
-- characters, the loop over the words of a configuration file likewise, and a C string and a symbol
-- table get 2^64 rounds, more than there are addresses. Includes of configuration files are followed
-- 2^20 deep, more than a process has file descriptors. The fuel of the queue of LoadDependingLibs is an
-- argument.
--
-- Parameters: where mmap puts a mapping, the contents of files and directories, getenv and getauxval,
-- what loaded code does to memory when it is called, the addresses of the loader's own objects, and the
-- symbol that the headers of libc give to a name of libc_mapping.cc.
-- Anonymous mappings are zero when made. Files do not change while they are mapped.
--
-- Not modelled: logging, as far as it has no effect on the run; the bodies of dlvsym and dladdr, of
-- sloader_libc_start_main and of sloader_register_atfork, which call libc or the program; the map
-- file as a file, of which only the text is kept; the arguments that initialisers get; raw_write
-- and ldsodefs.h, which are copies of other projects' headers.
pub mod Base
pub mod Result
pub mod Memory
pub mod Elf
pub mod Utils
pub mod System
pub mod Binary
pub mod Library
pub mod Loader
pub mod Execute
pub mod Dl
pub mod Main
pub mod ExecLoader
pub mod LibcMapping
pub mod Examples
