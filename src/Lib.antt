-- ===== src/Lib.antt =====
-- A verification library for debug80: the Z80 emulator that the debugger runs programs on
-- (packages/debug80-runtime/src/z80), and azm, the assembler that makes them (packages/azm).
--
-- The program. `createZ80Runtime` (runtime.ts) makes a processor (cpu.ts, types.ts) and 64K of
-- memory in which ranges can be ROM, and connects the two and the platform's ports by callbacks.
-- `execute` (cpu.ts) takes one instruction: it steps R, reads the opcode, runs its handler, steps PC,
-- and carries out an EI or DI of the instruction before. The handlers are tables of closures
-- (decode-primary.ts, decode-cb.ts, decode-ed.ts, decode-dd.ts, decode-ddcb.ts, decode-fd.ts) over the
-- arithmetic, jumps and block operations of decode-helpers.ts and rotate.ts. The runtime's `step`
-- repeats `execute` while a block instruction repeats, lets the platform tick after each, and takes the
-- interrupt that the tick asks for; `runUntilStop` repeats `step` up to a breakpoint or a halt.
--
-- The assembler parses a line into an instruction with operands (azm/src/z80/instruction.ts), lets
-- through the forms of LD that ld-support.ts knows, and encodes it (encode.ts, encode-core.ts,
-- encode-ld.ts) into fragments: constant bytes, and expressions that the emission turns into bytes.
-- The emitted bytes are written as Intel HEX (azm/src/outputs/write-hex.ts), which `parseIntelHex`
-- (loaders.ts) reads into the memory image of a program.
--
-- The files.
--   Base             names from the libraries, tests and lists on native numbers, bytes and words as
--                    numbers with the wrap-around written out, bounds of bit operations
--   Z80/State        types.ts and `init` of cpu.ts: `Cpu` and `Flags` are records
--   Z80/Registers    registers and register pairs by name, for the decoders
--   Z80/Hardware     memory, ROM ranges and ports of `createZ80Runtime` (runtime.ts)
--   Z80/Flags        core-helpers.ts: the flag byte, and flags from a result
--   Z80/Constants    constants.ts: the parity and cycle tables
--   Z80/Alu, Alu16   the arithmetic of decode-helpers.ts, and DAA of decode-primary.ts
--   Z80/Rotate       rotate.ts
--   Z80/Stack, Jump  `pushWord` of core-helpers.ts; pops, jumps, calls and restarts of decode-helpers.ts
--   Z80/Block        the block instructions of decode-helpers.ts and their repeats of decode-ed.ts
--   Z80/Decode       one child for each decode-*.ts: a table is a list of handlers in rows of sixteen
--                    opcodes, and a handler is a function from machine to machine
--   Z80/Processor    cpu.ts: reset, execute, interrupt
--   Z80/Runtime      runtime.ts: load, reset, step, run, snapshots
--   Z80/Loaders      loaders.ts: `parseIntelHex`
--   Z80/StepOver     opcodes.ts and `classifyStepOver` of runtime.ts
--   Z80/Valid        the ranges of the state, kept by every operation, table by table
--   Z80/Laws         what operations mean, against descriptions apart from their code
--   Azm/Expression   azm/src/model/expression.ts; Azm/Instruction: azm/src/z80/instruction.ts
--   Azm/Encode       encode.ts, encode-core.ts, encode-ld.ts and encode-ld-helpers.ts: a function by
--                    clauses on the mnemonic and the operands; a thrown error is an `Outcome`
--   Azm/LdSupport    ld-support.ts
--   Azm/Operators    azm/src/semantics/binary-operators.ts, unary-operators.ts and byte-functions.ts
--   Azm/Emission     azm/src/assembly/fixup-emission.ts: the arrays that it appends to are the state;
--                    `evaluateExpression` is a parameter, which gives a value and diagnostics. A byte
--                    that is NaN, or left out of the array, is `none`.
--                    Azm/Patching: its `patchFixups`
--   Azm/Laws         sizes, errors and forms of the encoding; Azm/Laws/Meaning says what an instruction
--                    does by its mnemonic, and Azm/Laws/Encoding that the processor does so;
--                    Azm/Laws/Emission and Branching go on to the emitted bytes
--   Azm/Outputs      azm/src/outputs/write-hex.ts, and in Azm/Outputs/Laws its round trip with the loader
--   Azm/Tests        these at concrete instructions, and Azm/EmissionTests the emission
--   Platforms        packages/debug80-runtime/src/platforms/cycle-clock.ts: callbacks are names, and
--                    what calling one does to the clock and the world is a parameter
--   Z80/Samples      small programs; Z80/Tests has the theorems at concrete inputs
--
-- The model. A handler that mutates `cpu` and calls `cb` is a function from `Machine` to `Machine`,
-- and one that returns a value gives it beside the machine. A JavaScript number in a register is a
-- natural number; the masks of the source are written as remainders, and a difference is the 32-bit
-- pattern that the source's masks and tests look at. In the assembler it is an integer, as exact as
-- a double below 2^53. Memory is a function on addresses. The platform is a parameter: it answers
-- from the history of port traffic, and has no other access to the machine.
--
-- Bounds. `step_loop` has the 0x110000 iterations of MAX_BLOCK_REPEAT_ITERATIONS, as the source has,
-- so it is total as it stands. `run_until_stop`, which the source leaves unbounded, has fuel, and is
-- `none` when that is not enough. So has the loop of the clock's `advance`; for callbacks that leave
-- the clock alone, enough fuel is given by a theorem. A segment of the HEX writer has its length as fuel.
--
-- Not modelled: the decoder cache of decode.ts, which saves rebuilding the
-- same closures; the `trace` option of `step`, of which `classify_step_over` is the content; the
-- platforms and the serial line (packages/debug80-runtime/src/platforms); of the assembler, the
-- tokenizer, the parsers, the macros, the evaluation of expressions, the placement and the register
-- contracts; the generators (packages/glimmer, packages/nucleus), and the debug adapter
-- (apps/debug80-vscode).
pub mod Base
pub mod Azm
pub mod Platforms
pub mod Z80
