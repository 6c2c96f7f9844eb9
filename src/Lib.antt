-- ===== src/Lib.antt =====
-- ReconOS: threads in hardware that use the objects of an operating system, and the software that
-- serves them.
--
-- A hardware thread sits in a slot and talks over a link, a pair of FIFOs. In software a delegate
-- thread reads commands from the link, makes the call of the operating system and answers. A second
-- pair of links connects the process with the unit that resets slots and translates addresses. A
-- packet interface to a network on chip is built on hardware threads and message boxes.
--
-- The parts, with the files of the repository that they follow:
--   Base      lists, machine words, arrays that are read and written round their end.
--   Mbox      linux/libreconos/mbox.c. `Mbox` is `struct mbox`; mbox_put and mbox_get run whole in
--             Mbox, and statement by statement in Mbox.Threads, where any number of threads
--             interleave. A semaphore is its count, a mutex whether it is held.
--   Machine   the state of a process: the words on the links, `reconos_proc`, the boxes, the heap, the
--             shared memory; `Host` is the operating system, a parameter with a state of its own.
--             `Run` says how a command ends: with a result, waiting, by `exit`, or in undefined
--             behaviour.
--   Kind      the types of resources, linux/libreconos/reconos.h.
--   Fsl       linux/libreconos/fsl.c: fsl_open, fsl_write and fsl_read.
--   Rq        linux/libreconos/rq.c: rq_send and rq_receive, on the boxes and the heap.
--   Process   linux/libreconos/libreconos.c up to line 207: slot_reset, getpgd, reconos_mmu_stats, the
--             control thread, reconos_init, reconos_init_autodetect, reconos_hwt_*.
--   Delegate  linux/libreconos/libreconos.c from line 210: delegate_thread_entry, one function for
--             each command, `dispatch` for the switch and `delegate_loop` for the loop.
--   Driver    linux/fsl_driver/fsl.c: nputfsl, ngetfsl, fsl_read, fsl_write, fsl_ioctl, the interrupt
--             handler, and the set-up and removal of the devices.
--   Noc       projects/noc_test/linux/hwSwIf. Packet and Wire have the packet and its bytes, Ring the
--             ring buffer, PacketList packetList.c, Threads the three threads towards the hardware
--             and reconosNoCSendPacket, Setup the start of the interface, Shutdown its end and the
--             thread that takes pointers from the hardware (reconosNoC.c), Dummy the packet of
--             hwSwIf.c.
--   Sort      demos/sort_demo/linux. Bubble is bubblesort.c and Merge is merge.c; Demo has the buffers,
--             the sort of a block, the check and the times (sort_demo.c, data.c, timing.c). Threads has
--             `main` and the sort threads side by side, on the boxes of Mbox: one call of a box or one
--             sort of a block is a step, and every order of steps is a run.
--   Webcam    demos/webcam. Socket is a stream socket, a parameter in concrete form; Tcp and Connection
--             are gui/src/tcp_connection.c, Ethernet linux/ethernet.c, Header the image header of
--             gui/src/netimage.c and its reader in linux/ethernet.c, Filter linux/filter.c, Pipeline
--             the threads of linux/webcam_demo.c (the filter threads in software, in whose place its
--             main starts hardware), Board a turn of the ethernet thread and the start of its connection
--             (linux/ethernet.c, linux/webcam_demo.c), Stream the frame's way in the loop of
--             gui/src/webcam.c, Channels two conversions of gui/src/receiveSendVideo.c, Viewer its flip
--             and mirror filters, Digits its itoa, Arguments the options of gui/src/webcam.c.
--   Memtest   demos/memtest: `simulate`, the runs of the threads and the check of linux/memtest.c, with
--             the hardware thread that it is about, edk/pcores/hwt_memaccess_v1_00_a/hdl/vhdl/
--             hwt_memaccess.vhd. The threads' buffers do not meet; they run one after the other.
--   Vmtest    demos/hwvm/linux/vmtest.c: hwt_read and hwt_write, with the hardware thread that serves
--             them, demos/hwvm/edk/pcores/hwt_memaccess_v1_00_a/hdl/vhdl/hwt_memaccess.vhd; one call of
--             a box is a step. A word that the thread hands to its memory interface is in the memory
--             at once. demos/hwvm_arbiter has the same two functions.
--   Pvr       linux/readpvr/readpvr.c: the table of register fields and its look-up.
--   Getpgd    linux/getpgd/getpgd.c: loading, unloading, reads and writes of the device.
--   Examples  runs on concrete values.
--
-- Numbers are natural numbers. Additions, subtractions and shifts that the source makes on 32-bit
-- words are written with their wrap-around, except where a bound that the statement gives excludes
-- it. A message on the heap is its size and its whole words; the bytes behind the last whole word of
-- a message are left out.
--
-- Loops: those over slots, words, blocks, pixels and devices recurse on what is left. The two endless
-- loops, of the delegate and the control thread, take a number of rounds; what is stated holds for
-- every number. The loop that aligns a write offset takes at most three rounds, since its offset is
-- then a multiple of four. The bubble sort has a bound of len + 1 passes, since the locals shrink with
-- each; the merge of 2^k blocks a depth of k + 1; the loops that read and write a socket len + 1 calls,
-- since each call that does not end them moves a byte. That these are enough is part of what is
-- stated. The step relations of Mbox.Threads and Noc.Threads have no bound; a run of Sort.Threads or
-- Vmtest is a list of steps, of any length that it can have.
--
-- Parameters: the operating system of Machine, and the C library's malloc, qsort, atoi and atof. A
-- call of read takes what has arrived, a call of write as much as a function says.
--
-- Not modelled: printing, and functions that only hand back memory or descriptors, like mbox_destroy;
-- the parts of the demos that draw graphs and windows or capture images by OpenCV; the sobel and the
-- dummy filter of the viewer; sort8k.c; the messages with which the memory test starts its threads;
-- the loops of the virtual memory tests; the demos that only start the library and print (condvar,
-- mutex, semaphore, rq, init_exit). Waits on condition variables end by a signal only. The links have
-- room for what software writes.
pub mod Base
pub mod Delegate
pub mod Driver
mod Examples
pub mod Fsl
pub mod Getpgd
pub mod Kind
pub mod Machine
pub mod Mbox
pub mod Memtest
pub mod Vmtest
pub mod Noc
pub mod Process
pub mod Pvr
pub mod Rq
pub mod Sort
pub mod Webcam
